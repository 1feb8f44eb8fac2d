-- ===== src/Resp/Hash/Several.antt =====
-- What HKEYS and HMGET write, which is not always a reply.
use mathlib.Core.List.{zip}
use momento_proxy.Base.{
  ◌≡◌, refl, List, [], ◌++◌, append_assoc, append-nil, map, Bytes, String, length, concat_map,
  length-map, sym,
}
use momento_proxy.Base.Exec.{◌>>◌, for_each}
use momento_proxy.Error.{Lookup, hit, miss}
use momento_proxy.Client.{Floats, Client}
use momento_proxy.Klog.{Status, klog_1, klog_2}
use momento_proxy.Context.{Context, klog, write}
use momento_proxy.Resp.Wire.{Item, bulk, nil_bulk, array, encode, encode_item}
use momento_proxy.Resp.Answers.{
  response, Writes, Writes-for_each, event-Writes, klog_len-Writes, bulks-Writes, command-written,
  written, headed-Writes,
}
use momento_proxy.Resp.Utils.{array_header, nil_line}
use momento_proxy.Resp.Hash.{hkeys, hkeys_reply, hmget, hmget_reply, hmget_field_reply}

-- HKEYS writes nothing where the dictionary does not exist.
abbrev pub keys_or_nothing : Lookup (List (Bytes × Bytes)) → Bytes
keys_or_nothing (hit es) = encode (array (map bulk (map (λ e. e.0) es)))
keys_or_nothing miss = []

-- The item of a field that HMGET asks for.
abbrev pub field_item : Lookup Bytes → Item
field_item (hit v) = bulk v
field_item miss = nil_bulk

-- HMGET: the number of fields that were asked for, and an item for each field that came back.
abbrev pub field_values : List Bytes → Lookup (List Bytes × List (Lookup Bytes)) → Bytes
field_values asked (hit (fields, responses)) =
    array_header (length asked)
    ++ concat_map (λ e. encode_item (field_item e.1)) (zip fields responses)
field_values asked miss =
    array_header (length asked) ++ concat_map (λ f. encode_item nil_bulk) asked

module _ {F : Floats} (client : Client F) (cache : String) (key : Bytes) where
  -- HKEYS of a dictionary that exists.
  hkeys_reply-Writes :
      (es : List (Bytes × Bytes))
      → Writes
          (hkeys_reply client cache key (hit es))
          (encode (array (map bulk (map (λ e. e.0) es))))
  unfolding hkeys_reply
  hkeys_reply-Writes es =
      bulks-Writes _ _ (length es) (map (λ e. e.0) es) (sym (length-map _ es)) (event-Writes _)
        (klog_len-Writes (klog_1 "hkeys" key Status.hit))

  hkeys_any-Writes :
      (r : Lookup (List (Bytes × Bytes)))
      → Writes (hkeys_reply client cache key r) (keys_or_nothing r)
  hkeys_any-Writes (hit es) = hkeys_reply-Writes es
  hkeys_any-Writes miss = record { at = λ c. unfold hkeys_reply in simp append-nil }

  pub hkeys-answer :
      (c : Context client.State)
      → response (hkeys client cache key c)
        ≡ written keys_or_nothing c.response_buf (client.dictionary_fetch cache key c.backend).0
  unfolding hkeys
  hkeys-answer = command-written _ _ _ _ _ _ keys_or_nothing hkeys_any-Writes

  hmget_field-Writes :
      (field : Bytes) (r : Lookup Bytes)
      → Writes (hmget_field_reply client cache key field r) (encode_item (field_item r))
  unfolding hmget_field_reply encode_item
  hmget_field-Writes field (hit v) = record { at = λ c. simp append_assoc }
  hmget_field-Writes field miss = record { at = λ c. refl }

  nil-Writes :
      (field : Bytes)
      → Writes
          (klog {S = client.State} {E = client.MomentoError}
              (klog_2 "hmget" key field Status.miss 0)
            >> write nil_line)
          (encode_item nil_bulk)
  unfolding encode_item
  nil-Writes field = record { at = λ c. refl }

  hmget_reply-Writes :
      (asked : List Bytes) (r : Lookup (List Bytes × List (Lookup Bytes)))
      → Writes (hmget_reply client cache key asked r) (field_values asked r)
  unfolding hmget_reply
  hmget_reply-Writes asked (hit (fields, responses)) =
      headed-Writes
        (for_each (zip fields responses)
          λ entry. hmget_field_reply client cache key entry.0 entry.1)
        _ (array_header (length asked)) _
        (Writes-for_each _ (λ e. encode_item (field_item e.1)) (λ e. hmget_field-Writes e.0 e.1)
          (zip fields responses))
        (record { at = λ c. simp append-nil })
  hmget_reply-Writes asked miss =
      headed-Writes _ _ (array_header (length asked)) _
        (Writes-for_each _ (λ f. encode_item nil_bulk) (λ f. nil-Writes f) asked) (event-Writes _)

  pub hmget-answer :
      (asked : List Bytes) (c : Context client.State)
      → response (hmget client cache key asked c)
        ≡ written
            (field_values asked)
            c.response_buf
            (client.dictionary_get_fields cache key asked c.backend).0
  unfolding hmget
  hmget-answer asked = command-written _ _ _ _ _ _ (field_values asked) (hmget_reply-Writes asked)
