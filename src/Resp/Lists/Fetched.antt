-- ===== src/Resp/Lists/Fetched.antt =====
-- The replies of LINDEX, LLEN, LPUSH and RPUSH.
use momento_proxy.Base.{ℕ, ◌≡◌, refl, Option, some, none, List, append_assoc, Bytes, String, length}
use momento_proxy.Base.Int.{ℤ}
use momento_proxy.Base.Decimal.{decimal, decimal_int}
use momento_proxy.Error.{Lookup, hit, miss}
use momento_proxy.Client.{Floats, Client}
use momento_proxy.Context.{Context}
use momento_proxy.Resp.Wire.{Reply, bulk, nil_bulk, item, encode, encode_item}
use momento_proxy.Resp.Answers.{response, answer, Writes, command-answer}
use momento_proxy.Resp.Hash.Replies.{size_or_zero}
use momento_proxy.Resp.Lists.{
  list_index, element_at, lindex_element, lindex_found, lindex_reply, lindex, llen_reply, llen,
}

abbrev pub element_or_nil : Option Bytes → Reply
element_or_nil (some e) = item (bulk e)
element_or_nil none = item nil_bulk

abbrev pub indexed : ℤ → Lookup (List Bytes) → Reply
indexed i (hit list) = element_or_nil (element_at list (list_index (length list) i))
indexed i miss = item nil_bulk

module _ {F : Floats} (client : Client F) (cache : String) (key : Bytes) where
  open client use {State, MomentoError}

  llen_reply-Writes :
      (r : Lookup ℕ) → Writes (llen_reply client cache key r) (encode (size_or_zero r))
  unfolding llen_reply encode encode_item decimal_int
  llen_reply-Writes (hit n) = record { at = λ c. refl }
  llen_reply-Writes miss = record { at = λ c. unfold decimal in refl }

  pub llen-answer :
      (c : Context State)
      → response (llen client cache key c)
        ≡ answer size_or_zero c.response_buf (client.list_length cache key c.backend).0
  unfolding llen
  llen-answer = command-answer _ _ _ _ _ _ size_or_zero llen_reply-Writes

  lindex_found-Writes :
      (i : ℤ) (o : Option Bytes)
      → Writes (lindex_found client cache key i o) (encode (element_or_nil o))
  unfolding lindex_found lindex_element encode encode_item
  lindex_found-Writes i (some e) = record { at = λ c. simp append_assoc }
  lindex_found-Writes i none = record { at = λ c. refl }

  lindex_reply-Writes :
      (i : ℤ) (r : Lookup (List Bytes))
      → Writes (lindex_reply client cache key i r) (encode (indexed i r))
  unfolding lindex_reply element_at encode encode_item
  lindex_reply-Writes i (hit list) =
      lindex_found-Writes i (element_at list (list_index (length list) i))
  lindex_reply-Writes i miss = record { at = λ c. refl }

  pub lindex-answer :
      (i : ℤ) (c : Context State)
      → response (lindex client cache key i c)
        ≡ answer (indexed i) c.response_buf (client.list_fetch cache key c.backend).0
  unfolding lindex
  lindex-answer i = command-answer _ _ _ _ _ _ (indexed i) (lindex_reply-Writes i)
