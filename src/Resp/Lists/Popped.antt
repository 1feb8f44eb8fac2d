-- ===== src/Resp/Lists/Popped.antt =====
-- The replies of LPOP and RPOP.
use momento_proxy.Base.{
  ℕ, zero, suc, ◌≡◌, refl, ap, ◌∙◌, sym, subst, Option, none, some, List, [], ◌∷◌, ◌++◌,
  append_assoc, map, Bytes, String, length, length-map, concat_map,
}
use momento_proxy.Base.Decimal.{decimal}
use momento_proxy.Base.Exec.{Result, ok, err, panicked, pure, ◌>>=◌}
use momento_proxy.Error.{ProxyError, is_done, is_failed, is_elapsed, ends, Lookup, hit, miss}
use momento_proxy.Client.{Floats, Client, Rpc}
use momento_proxy.Context.{Context, Handler, write, call, or_raise}
use momento_proxy.Resp.Wire.{Reply, bulk, array, nil_array, encode, encode_item}
use momento_proxy.Resp.Answers.{
  response, answer, Writes, Writes-bind, write_bulks-Writes, array-bytes,
  response-update_method_metrics,
}
use momento_proxy.Resp.Chains.{and_then, continue_assoc, result_of}
use momento_proxy.Resp.Hash.Replies.{value_or_nil}
use momento_proxy.Resp.Utils.{array_header, write_bulks}
use momento_proxy.Resp.Lists.{
  popped_then, popped_reply, probed_reply, pop_each, items_reply, pop_with, lpop, rpop,
}

-- A pop of no elements tells whether the list is there.
abbrev pub probed : Lookup ℕ → Reply
probed (hit _) = array []
probed miss = nil_array

abbrev pub popped_items : List Bytes → Reply
popped_items [] = nil_array
popped_items (v ∷ vs) = array (map bulk (v ∷ vs))

module _ {E : Type 0} where
  abbrev pub values_then :
      Result (ProxyError E) (List Bytes) → Lookup Bytes → Result (ProxyError E) (List Bytes)
  values_then rest miss = ok []
  values_then rest (hit v) = and_then rest (λ vs. ok (v ∷ vs))

module _ {S E : Type 0} where
  -- The values of the pops, up to the first that finds none.
  abbrev pub pops : Rpc S E (Lookup Bytes) → ℕ → S → Result (ProxyError E) (List Bytes)
  pops pop zero t = ok []
  pops pop (suc n) t = and_then (result_of (pop t).0) (values_then (pops pop n (pop t).1))

and_then_assoc :
    {E A B C : Type 0}
    → (r : Result E A) (f : A → B) (g : B → Result E C)
    → and_then (and_then r (λ a. ok (f a))) g ≡ and_then r (λ a. g (f a))
and_then_assoc (ok a) f g = refl
and_then_assoc (err e) f g = refl
and_then_assoc panicked f g = refl

module _ {F : Floats} (client : Client F) (cache : String) where
  open client use {State, MomentoError}

  -- A handler of items whose result is `r`, and the replies to them.
  abbrev Gives :
      Handler State MomentoError (List Bytes)
      → Result (ProxyError MomentoError) (List Bytes)
      → Context State
      → Type 0
  Gives m r c =
      (k : List Bytes → Handler State MomentoError (Unit {0})) (f : List Bytes → Bytes)
      → ((vs : List Bytes) → Writes (k vs) (f vs))
      → response ((m >>= k) c) ≡ and_then r (λ vs. ok (c.response_buf ++ f vs))

  popped_then-Gives :
      (m : Handler State MomentoError (List Bytes))
      (r : Result (ProxyError MomentoError) (List Bytes)) (c : Context State) (v : Lookup Bytes)
      → Gives m r c
      → Gives (popped_then client cache m v) (values_then r v) c
  popped_then-Gives m r c miss g k f w = (w []).at c
  popped_then-Gives m r c (hit v) g k f w =
      ap response (continue_assoc (m c).0 (λ vs. pure (v ∷ vs)) k (m c).1)
      ∙ g (λ vs. k (v ∷ vs)) (λ vs. f (v ∷ vs)) (λ vs. w (v ∷ vs))
      ∙ sym (and_then_assoc r (λ vs. v ∷ vs) (λ vs. ok (c.response_buf ++ f vs)))

  pop_each-Gives :
      (pop : Rpc State MomentoError (Lookup Bytes)) (n : ℕ) (c : Context State)
      → Gives (pop_each client cache pop n) (pops pop n c.backend) c
  unfolding pop_each
  pop_each-Gives pop zero c k f w = (w []).at c
  pop_each-Gives pop (suc n) c k f w = elim (ends (pop c.backend).0) [
    | is_done v e ↦
        let c' = record c { backend = (pop c.backend).1 } in
        rw e (
          popped_then-Gives (pop_each client cache pop n) (pops pop n c'.backend) c' v
            (pop_each-Gives pop n c') k f w)
    | is_failed x e ↦ rw e
    | is_elapsed e ↦ rw e
  ]

  popped_reply-Writes :
      (r : Lookup Bytes) → Writes (popped_reply client cache r) (encode (value_or_nil r))
  unfolding popped_reply encode encode_item
  popped_reply-Writes (hit v) = record { at = λ c. simp append_assoc }
  popped_reply-Writes miss = record { at = λ c. refl }

  probed_reply-Writes : (r : Lookup ℕ) → Writes (probed_reply client cache r) (encode (probed r))
  unfolding probed_reply encode decimal
  probed_reply-Writes (hit n) = record { at = λ c. refl }
  probed_reply-Writes miss = record { at = λ c. refl }

  items_reply-Writes :
      (vs : List Bytes) → Writes (items_reply client cache vs) (encode (popped_items vs))
  unfolding items_reply
  items_reply-Writes [] = record { at = λ c. unfold encode in refl }
  items_reply-Writes (v ∷ vs) =
      subst (Writes _)
        (ap (λ n. array_header n ++ concat_map encode_item (map bulk (v ∷ vs)))
            (sym (length-map bulk (v ∷ vs)))
          ∙ array-bytes (map bulk (v ∷ vs)))
        (Writes-bind (write (array_header (length (v ∷ vs)))) (write_bulks (v ∷ vs)) _ _
          (record { at = λ c. refl }) (write_bulks-Writes (v ∷ vs)))

  raised-answer :
      {A : Type 0}
      → (rpc : Rpc State MomentoError A) (k : A → Handler State MomentoError (Unit {0}))
        (f : A → Reply)
      → ((a : A) → Writes (k a) (encode (f a)))
      → (c : Context State)
      → response ((call rpc >>= λ o. (or_raise o >>= k)) c)
        ≡ answer f c.response_buf (rpc c.backend).0
  raised-answer rpc k f w c = elim (ends (rpc c.backend).0) [
    | is_done a e ↦ rw e ((w a).at _)
    | is_failed x e ↦ rw e
    | is_elapsed e ↦ rw e
  ]

  -- What a pop from either end replies.
  abbrev pub pop_answer :
      Rpc State MomentoError (Lookup Bytes)
      → Bytes
      → Option ℕ
      → Bytes
      → State
      → Result (ProxyError MomentoError) Bytes
  pop_answer pop key none buf t = answer value_or_nil buf (pop t).0
  pop_answer pop key (some zero) buf t = answer probed buf (client.list_length cache key t).0
  pop_answer pop key (some (suc n)) buf t =
      and_then (pops pop (suc n) t) (λ vs. ok (buf ++ encode (popped_items vs)))

  pop_with-answer :
      (pop : Rpc State MomentoError (Lookup Bytes)) (key : Bytes) (count : Option ℕ)
      (c : Context State)
      → response (pop_with client cache pop key count c)
        ≡ pop_answer pop key count c.response_buf c.backend
  unfolding pop_with
  pop_with-answer pop key none c =
      raised-answer pop (popped_reply client cache) value_or_nil popped_reply-Writes c
  pop_with-answer pop key (some zero) c =
      raised-answer (client.list_length cache key) (probed_reply client cache) probed
        probed_reply-Writes c
  pop_with-answer pop key (some (suc n)) c =
      pop_each-Gives pop (suc n) c (items_reply client cache) (λ vs. encode (popped_items vs))
        items_reply-Writes

  pub lpop-answer :
      (key : Bytes) (count : Option ℕ) (c : Context State)
      → response (lpop client cache key count c)
        ≡ pop_answer (client.list_pop_front cache key) key count c.response_buf c.backend
  unfolding lpop
  lpop-answer key count c =
      response-update_method_metrics _ _
        (pop_with client cache (client.list_pop_front cache key) key count) c
      ∙ pop_with-answer (client.list_pop_front cache key) key count _

  pub rpop-answer :
      (key : Bytes) (count : Option ℕ) (c : Context State)
      → response (rpop client cache key count c)
        ≡ pop_answer (client.list_pop_back cache key) key count c.response_buf c.backend
  unfolding rpop
  rpop-answer key count c =
      response-update_method_metrics _ _
        (pop_with client cache (client.list_pop_back cache key) key count) c
      ∙ pop_with-answer (client.list_pop_back cache key) key count _
