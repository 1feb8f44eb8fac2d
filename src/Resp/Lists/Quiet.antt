-- ===== src/Resp/Lists/Quiet.antt =====
-- The list commands leave the guard of their call alone.
use momento_proxy.Base.{
  ℕ, zero, suc, refl, Option, none, some, List, [], ◌∷◌, Bytes, String, length,
}
use momento_proxy.Base.Int.{ℤ}
use momento_proxy.Error.{Lookup, hit, miss}
use momento_proxy.Client.{Floats, Client, Rpc}
use momento_proxy.Context.{Handler, or_raise, write}
use momento_proxy.Metrics.Observations.{counts}
use momento_proxy.Resp.Utils.{array_header}
use momento_proxy.Resp.Silent.{
  Silent, bind-Silent, call-Silent, or_raise-Silent, method-Silent, command-Silent,
  write_bulks-Silent, write_unterminated-Silent,
}
use momento_proxy.Resp.Lists.{
  lindex, lindex_reply, lindex_found, lindex_element, element_at, list_index, llen, llen_reply,
  popped_reply, probed_reply, popped_then, pop_each, items_reply, pop_with, lpop, rpop, slice_reply,
  lrange, lrange_reply, list_slice, lpush, rpush,
}

module _ {F : Floats} (client : Client F) (cache_name : String) where
  open client use {State, MomentoError}

  lindex_found-Silent :
      (key : Bytes) (i : ℤ) (e : Option Bytes) → Silent (lindex_found client cache_name key i e)
  unfolding lindex_found lindex_element
  lindex_found-Silent key i none = record { at = λ c. (refl, omega counts) }
  lindex_found-Silent key i (some e) = record { at = λ c. (refl, omega counts) }

  lindex_reply-Silent :
      (key : Bytes) (i : ℤ) (r : Lookup (List Bytes))
      → Silent (lindex_reply client cache_name key i r)
  unfolding lindex_reply
  lindex_reply-Silent key i (hit list) =
      lindex_found-Silent key i (element_at list (list_index (length list) i))
  lindex_reply-Silent key i miss = record { at = λ c. (refl, omega counts) }

  pub lindex-Silent : (key : Bytes) (i : ℤ) → Silent (lindex client cache_name key i)
  unfolding lindex
  lindex-Silent key i = command-Silent _ _ _ _ _ _ (lindex_reply-Silent key i)

  llen_reply-Silent : (key : Bytes) (r : Lookup ℕ) → Silent (llen_reply client cache_name key r)
  unfolding llen_reply
  llen_reply-Silent key (hit n) = record { at = λ c. (refl, omega counts) }
  llen_reply-Silent key miss = record { at = λ c. (refl, omega counts) }

  pub llen-Silent : (key : Bytes) → Silent (llen client cache_name key)
  unfolding llen
  llen-Silent key = command-Silent _ _ _ _ _ _ (llen_reply-Silent key)

  popped_reply-Silent : (r : Lookup Bytes) → Silent (popped_reply client cache_name r)
  unfolding popped_reply
  popped_reply-Silent (hit v) = record { at = λ c. (refl, refl) }
  popped_reply-Silent miss = record { at = λ c. (refl, refl) }

  probed_reply-Silent : (r : Lookup ℕ) → Silent (probed_reply client cache_name r)
  unfolding probed_reply
  probed_reply-Silent (hit v) = record { at = λ c. (refl, refl) }
  probed_reply-Silent miss = record { at = λ c. (refl, refl) }

  popped_then-Silent :
      (rest : Handler State MomentoError (List Bytes)) (r : Lookup Bytes)
      → Silent rest
      → Silent (popped_then client cache_name rest r)
  popped_then-Silent rest (hit v) h = bind-Silent rest _ h (λ a. record { at = λ c. (refl, refl) })
  popped_then-Silent rest miss h = record { at = λ c. (refl, refl) }

  pop_each-Silent :
      (pop : Rpc State MomentoError (Lookup Bytes)) (count : ℕ)
      → Silent (pop_each client cache_name pop count)
  unfolding pop_each
  pop_each-Silent pop zero = record { at = λ c. (refl, refl) }
  pop_each-Silent pop (suc count) = call-Silent pop _ λ o.
      bind-Silent (or_raise o)
        (popped_then client cache_name (pop_each client cache_name pop count)) (or_raise-Silent o)
        (λ r. popped_then-Silent _ r (pop_each-Silent pop count))

  items_reply-Silent : (items : List Bytes) → Silent (items_reply client cache_name items)
  unfolding items_reply
  items_reply-Silent [] = record { at = λ c. (refl, refl) }
  items_reply-Silent (x ∷ xs) =
      bind-Silent (write (array_header (length (x ∷ xs)))) _ (record { at = λ c. (refl, refl) })
        (λ a. write_bulks-Silent (x ∷ xs))

  pop_with-Silent :
      (pop : Rpc State MomentoError (Lookup Bytes)) (key : Bytes) (count : Option ℕ)
      → Silent (pop_with client cache_name pop key count)
  unfolding pop_with
  pop_with-Silent pop key none = call-Silent pop _ λ o.
      bind-Silent (or_raise o) (popped_reply client cache_name) (or_raise-Silent o)
        popped_reply-Silent
  pop_with-Silent pop key (some zero) = call-Silent (client.list_length cache_name key) _ λ o.
      bind-Silent (or_raise o) (probed_reply client cache_name) (or_raise-Silent o)
        probed_reply-Silent
  pop_with-Silent pop key (some (suc count)) =
      bind-Silent (pop_each client cache_name pop (suc count)) (items_reply client cache_name)
        (pop_each-Silent pop (suc count)) items_reply-Silent

  pub lpop-Silent : (key : Bytes) (count : Option ℕ) → Silent (lpop client cache_name key count)
  unfolding lpop
  lpop-Silent key count = method-Silent _ _ _ (pop_with-Silent _ key count)

  pub rpop-Silent : (key : Bytes) (count : Option ℕ) → Silent (rpop client cache_name key count)
  unfolding rpop
  rpop-Silent key count = method-Silent _ _ _ (pop_with-Silent _ key count)

  slice_reply-Silent : (s : Option (List Bytes)) → Silent (slice_reply client cache_name s)
  unfolding slice_reply
  slice_reply-Silent none = record { at = λ c. (refl, refl) }
  slice_reply-Silent (some xs) =
      bind-Silent (write (array_header (length xs))) _ (record { at = λ c. (refl, refl) })
        (λ a. write_unterminated-Silent xs)

  lrange_reply-Silent :
      (i j : ℤ) (r : Lookup (List Bytes)) → Silent (lrange_reply client cache_name i j r)
  unfolding lrange_reply
  lrange_reply-Silent i j (hit xs) = slice_reply-Silent (list_slice xs i j)
  lrange_reply-Silent i j miss = record { at = λ c. (refl, refl) }

  pub lrange-Silent : (key : Bytes) (i j : ℤ) → Silent (lrange client cache_name key i j)
  unfolding lrange
  lrange-Silent key i j = command-Silent _ _ _ _ _ _ (lrange_reply-Silent i j)

  pub lpush-Silent : (key : Bytes) (es : List Bytes) → Silent (lpush client cache_name key es)
  unfolding lpush
  lpush-Silent key es = command-Silent _ _ _ _ _ _ (λ a. record { at = λ c. (refl, refl) })

  pub rpush-Silent : (key : Bytes) (es : List Bytes) → Silent (rpush client cache_name key es)
  unfolding rpush
  rpush-Silent key es = command-Silent _ _ _ _ _ _ (λ a. record { at = λ c. (refl, refl) })
