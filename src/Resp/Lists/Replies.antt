-- ===== src/Resp/Lists/Replies.antt =====
-- The replies of LRANGE, LPUSH and RPUSH.
use momento_proxy.Base.{
  ◌≡◌, refl, ◌∙◌, Option, none, some, List, [], ◌∷◌, ◌++◌, append-nil, append_assoc, Bytes, String,
  codes, length,
}
use momento_proxy.Base.Int.{ℤ}
use momento_proxy.Base.Exec.{ok}
use momento_proxy.Error.{done, Lookup, hit, miss}
use momento_proxy.Client.{Floats, Client}
use momento_proxy.Context.{Context, write}
use momento_proxy.Resp.Wire.{decode}
use momento_proxy.Resp.Wire.RoundTrip.Unterminated.{unterminated_array, decode-unterminated_array}
use momento_proxy.Resp.Utils.{array_header, write_unterminated}
use momento_proxy.Resp.Answers.{
  response, written, Writes, Writes-bind, write_unterminated-Writes, command-written,
}
use momento_proxy.Resp.Lists.{list_slice, slice_reply, lrange_reply, lrange, lpush, rpush}

-- What LRANGE writes for the elements that it has selected.
abbrev pub slice_bytes : Option (List Bytes) → Bytes
slice_bytes none = codes "*0" ++ 13 ∷ 10 ∷ []
slice_bytes (some elems) = unterminated_array elems

abbrev pub range_bytes : ℤ → ℤ → Lookup (List Bytes) → Bytes
range_bytes start stop miss = slice_bytes none
range_bytes start stop (hit list) = slice_bytes (list_slice list start stop)

module _ {F : Floats} (client : Client F) (cache_name : String) (key : Bytes) where
  slice_reply-Writes :
      (o : Option (List Bytes)) → Writes (slice_reply client cache_name o) (slice_bytes o)
  unfolding slice_reply
  slice_reply-Writes none = record { at = λ c. refl }
  slice_reply-Writes (some elems) = record {
    at = λ c.
        (Writes-bind (write (array_header (length elems))) (write_unterminated elems) _ _
            (record { at = λ d. refl }) (write_unterminated-Writes elems)).at
          c
        ∙ simp append_assoc;
  }

  lrange_reply-Writes :
      (start stop : ℤ) (r : Lookup (List Bytes))
      → Writes (lrange_reply client cache_name start stop r) (range_bytes start stop r)
  unfolding lrange_reply
  lrange_reply-Writes start stop (hit list) = slice_reply-Writes (list_slice list start stop)
  lrange_reply-Writes start stop miss = record { at = λ c. refl }

  pub lrange-answer :
      (start stop : ℤ) (c : Context client.State)
      → response (lrange client cache_name key start stop c)
        ≡ written
            (range_bytes start stop)
            c.response_buf
            (client.list_fetch cache_name key c.backend).0
  unfolding lrange
  lrange-answer start stop =
      command-written _ _ _ _ _ _ (range_bytes start stop) (lrange_reply-Writes start stop)

  -- Where LRANGE selects elements, what it writes is no RESP reply, since there is no line end behind
  -- the elements.
  pub lrange_unreadable :
      (start stop : ℤ) (c : Context client.State) (list : List Bytes) (e : Bytes) (es : List Bytes)
      → (client.list_fetch cache_name key c.backend).0 ≡ done (hit list)
      → list_slice list start stop ≡ some (e ∷ es)
      → c.response_buf ≡ []
      → (b : Bytes) × (response (lrange client cache_name key start stop c) ≡ ok b)
        × (decode b ≡ none)
  lrange_unreadable start stop c list e es h s q = (
    unterminated_array (e ∷ es),
    lrange-answer start stop c ∙ rw (h, q, s) refl,
    decode-unterminated_array e es,
  )

  -- A push that the service carries out writes no reply at all, and one that fails or times out ends in
  -- that error.
  pub pushes_silent :
      (elements : List Bytes) (c : Context client.State)
      → (response (lpush client cache_name key elements c)
          ≡ written
              (λ _. [])
              c.response_buf
              (client.list_concatenate_front cache_name key elements c.backend).0)
        × (response (rpush client cache_name key elements c)
            ≡ written
                (λ _. [])
                c.response_buf
                (client.list_concatenate_back cache_name key elements c.backend).0)
  unfolding lpush rpush
  pushes_silent elements c = (
    command-written _ _ _ _ _ _ (λ _. []) (λ _. record { at = λ d. simp append-nil }) c,
    command-written _ _ _ _ _ _ (λ _. []) (λ _. record { at = λ d. simp append-nil }) c,
  )
