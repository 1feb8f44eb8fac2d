-- ===== src/Resp/Hash/Replies.antt =====
-- The replies of the hash commands.
use momento_proxy.Base.{
  ℕ, ◌*◌, ◌≡◌, refl, List, [], ◌∷◌, ◌++◌, append_assoc, map, Bytes, String, length, arith,
  concat_map, length-map, sym, subst,
}
use momento_proxy.Base.Int.{ℤ, pos}
use momento_proxy.Base.Decimal.{decimal, decimal_int}
use momento_proxy.Error.{Lookup, hit, miss}
use momento_proxy.Client.{Floats, Client}
use momento_proxy.Klog.{Status, klog_1}
use momento_proxy.Context.{Context}
use momento_proxy.Resp.Wire.{Reply, Item, bulk, nil_bulk, integer, item, array, encode, encode_item}
use momento_proxy.Resp.Answers.{
  response, answer, Writes, Writes-for_each, event-Writes, klog_len-Writes, array-Writes,
  bulks-Writes, command-answer,
}
use momento_proxy.Resp.Hash.{
  hget, hget_reply, hexists, hexists_reply, hdel, hgetall, hgetall_reply, write_entries,
  write_entry, hincrby, hlen, hlen_reply, hvals, hvals_reply, hset,
}

abbrev pub value_or_nil : Lookup Bytes → Reply
value_or_nil (hit v) = item (bulk v)
value_or_nil miss = item nil_bulk

abbrev pub one_or_zero : Lookup Bytes → Reply
one_or_zero (hit v) = item (integer (pos 1))
one_or_zero miss = item (integer (pos 0))

abbrev pub size_or_zero : Lookup ℕ → Reply
size_or_zero (hit n) = item (integer (pos n))
size_or_zero miss = item (integer (pos 0))

abbrev entry_items : List (Bytes × Bytes) → List Item
entry_items [] = []
entry_items ((f, v) ∷ es) = bulk f ∷ bulk v ∷ entry_items es

-- The fields and the values in turn.
abbrev pub all_entries : Lookup (List (Bytes × Bytes)) → Reply
all_entries (hit es) = array (entry_items es)
all_entries miss = array []

abbrev pub all_values : Lookup (List (Bytes × Bytes)) → Reply
all_values (hit es) = array (map bulk (map (λ e. e.1) es))
all_values miss = array []

abbrev entry_bytes : Bytes × Bytes → Bytes
entry_bytes (f, v) = encode_item (bulk f) ++ encode_item (bulk v)

entry_items-bytes :
    (es : List (Bytes × Bytes))
    → concat_map entry_bytes es ≡ concat_map encode_item (entry_items es)
entry_items-bytes [] = refl
entry_items-bytes ((f, v) ∷ es) = simp (append_assoc, entry_items-bytes es)

-- A reply that does not depend on what the service returns.
abbrev pub count_reply : ℕ → Unit {0} → Reply
count_reply n _ = item (integer (pos n))

abbrev pub int_reply : ℤ → Reply
int_reply z = item (integer z)

module _ {F : Floats} (client : Client F) (cache : String) (key : Bytes) where
  hget_reply-Writes :
      (field : Bytes) (r : Lookup Bytes)
      → Writes (hget_reply client cache key field r) (encode (value_or_nil r))
  unfolding hget_reply encode
  hget_reply-Writes field (hit v) = record { at = λ c. simp append_assoc }
  hget_reply-Writes field miss = record { at = λ c. refl }

  hexists_reply-Writes :
      (field : Bytes) (r : Lookup Bytes)
      → Writes (hexists_reply client cache key field r) (encode (one_or_zero r))
  unfolding hexists_reply encode decimal_int decimal
  hexists_reply-Writes field (hit v) = record { at = λ c. refl }
  hexists_reply-Writes field miss = record { at = λ c. refl }

  hlen_reply-Writes :
      (r : Lookup ℕ) → Writes (hlen_reply client cache key r) (encode (size_or_zero r))
  unfolding hlen_reply encode decimal_int
  hlen_reply-Writes (hit v) = record { at = λ c. refl }
  hlen_reply-Writes miss = record { at = λ c. unfold decimal in refl }

  entry_items-length : (es : List (Bytes × Bytes)) → length (entry_items es) ≡ length es * 2
  entry_items-length [] = refl
  entry_items-length ((f, v) ∷ es) = omega (arith, entry_items-length es)

  hvals_reply-Writes :
      (r : Lookup (List (Bytes × Bytes)))
      → Writes (hvals_reply client cache key r) (encode (all_values r))
  unfolding hvals_reply
  hvals_reply-Writes (hit es) =
      bulks-Writes _ _ (length es) (map (λ e. e.1) es) (sym (length-map _ es)) (event-Writes _)
        (klog_len-Writes (klog_1 "hvals" key Status.hit))
  hvals_reply-Writes miss = record { at = λ c. unfold encode decimal in refl }

  write_entry-Writes : (e : Bytes × Bytes) → Writes (write_entry client cache e) (entry_bytes e)
  unfolding write_entry encode_item
  write_entry-Writes (f, v) = record { at = λ c. simp append_assoc }

  write_entries-Writes :
      (es : List (Bytes × Bytes))
      → Writes (write_entries client cache es) (concat_map encode_item (entry_items es))
  unfolding write_entries
  write_entries-Writes es =
      subst (Writes (write_entries client cache es)) (entry_items-bytes es)
        (Writes-for_each (write_entry client cache) entry_bytes write_entry-Writes es)

  hgetall_reply-Writes :
      (r : Lookup (List (Bytes × Bytes)))
      → Writes (hgetall_reply client cache key r) (encode (all_entries r))
  unfolding hgetall_reply
  hgetall_reply-Writes (hit es) =
      array-Writes _ (write_entries client cache es) _ (length es * 2) (entry_items es)
        (sym (entry_items-length es)) (event-Writes _) (write_entries-Writes es)
        (klog_len-Writes (klog_1 "hgetall" key Status.hit))
  hgetall_reply-Writes miss = record { at = λ c. unfold encode decimal in refl }

  pub hget-answer :
      (field : Bytes) (c : Context client.State)
      → response (hget client cache key field c)
        ≡ answer value_or_nil c.response_buf
            (client.dictionary_get_field cache key field c.backend).0
  unfolding hget
  hget-answer field = command-answer _ _ _ _ _ _ value_or_nil (hget_reply-Writes field)

  pub hexists-answer :
      (field : Bytes) (c : Context client.State)
      → response (hexists client cache key field c)
        ≡ answer one_or_zero c.response_buf
            (client.dictionary_get_field cache key field c.backend).0
  unfolding hexists
  hexists-answer field = command-answer _ _ _ _ _ _ one_or_zero (hexists_reply-Writes field)

  pub hdel-answer :
      (fields : List Bytes) (c : Context client.State)
      → response (hdel client cache key fields c)
        ≡ answer
            (count_reply (length fields))
            c.response_buf
            (client.dictionary_remove_fields cache key fields c.backend).0
  unfolding hdel
  hdel-answer fields =
      command-answer _ _ _ _ _ _ (count_reply (length fields))
        λ _. record { at = λ c. unfold encode decimal_int in refl }

  pub hgetall-answer :
      (c : Context client.State)
      → response (hgetall client cache key c)
        ≡ answer all_entries c.response_buf (client.dictionary_fetch cache key c.backend).0
  unfolding hgetall
  hgetall-answer = command-answer _ _ _ _ _ _ all_entries hgetall_reply-Writes

  pub hvals-answer :
      (c : Context client.State)
      → response (hvals client cache key c)
        ≡ answer all_values c.response_buf (client.dictionary_fetch cache key c.backend).0
  unfolding hvals
  hvals-answer = command-answer _ _ _ _ _ _ all_values hvals_reply-Writes

  pub hlen-answer :
      (c : Context client.State)
      → response (hlen client cache key c)
        ≡ answer size_or_zero c.response_buf (client.dictionary_length cache key c.backend).0
  unfolding hlen
  hlen-answer = command-answer _ _ _ _ _ _ size_or_zero hlen_reply-Writes

  pub hincrby-answer :
      (field : Bytes) (n : ℤ) (c : Context client.State)
      → response (hincrby client cache key field n c)
        ≡ answer int_reply c.response_buf
            (client.dictionary_increment cache key field n c.backend).0
  unfolding hincrby
  hincrby-answer field n =
      command-answer _ _ _ _ _ _ int_reply λ _. record { at = λ c. unfold encode in refl }

  pub hset-answer :
      (entries : List (Bytes × Bytes)) (c : Context client.State)
      → response (hset client cache key entries c)
        ≡ answer
            (count_reply (length entries))
            c.response_buf
            (client.dictionary_set_fields cache key entries c.backend).0
  unfolding hset
  hset-answer entries =
      command-answer _ _ _ _ _ _ (count_reply (length entries))
        λ _. record { at = λ c. unfold encode decimal_int in refl }
