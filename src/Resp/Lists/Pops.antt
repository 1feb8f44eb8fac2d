-- ===== src/Resp/Lists/Pops.antt =====
-- LPOP and RPOP with a count.
use momento_proxy.Base.{
  ℕ, zero, suc, ◌≡◌, refl, sym, ap, ◌∙◌, List, [], ◌∷◌, ◌++◌, map, Bytes, String, take, drop,
  length, length-map, subst,
}
use momento_proxy.Base.Exec.{Result, ok, err, panicked, pure, continue, ◌>>=◌}
use momento_proxy.Error.{ProxyError, done, Lookup, hit, miss}
use momento_proxy.Client.{Floats, Client, Rpc}
use momento_proxy.Context.{Context, write}
use momento_proxy.Resp.Lists.{pop_each, items_reply, pop_with}
use momento_proxy.Base.{some}
use momento_proxy.Resp.Wire.{Reply, nil_array, array, bulk, encode}
use momento_proxy.Resp.Answers.{response, Writes, Writes-bind, write_bulks-Writes, array-bytes}
use momento_proxy.Resp.Utils.{write_bulks, array_header}

abbrev pub first_of : List Bytes → Lookup Bytes
first_of [] = miss
first_of (v ∷ vs) = hit v

module _ {E A B S : Type 0} where
  continue-pure :
      (r : Result E A × S) (g : A → B) (a : A) (q : S → Type 0)
      → (r.0 ≡ ok a) × q r.1
      → ((continue r.0 (λ x. pure {E = E} {S = S} (g x)) r.1).0 ≡ ok (g a))
        × q (continue r.0 (λ x. pure {E = E} {S = S} (g x)) r.1).1
  continue-pure (ok x, c) g a q (p, h) = (cc, h)
  continue-pure (err e, c) g a q (p, h) = absurd (cc)
  continue-pure (panicked, c) g a q (p, h) = absurd (cc)

module _ {S E : Type 0} where
  array_of :
      (n : ℕ) (values : List Bytes)
      → n ≡ length (map bulk values)
      → Writes
          (write {S = S} {E = E} (array_header n) >>= λ _. write_bulks values)
          (encode (array (map bulk values)))
  array_of n values h = rw h (
      subst (Writes _) (array-bytes (map bulk values)) (
        Writes-bind (write (array_header (length (map bulk values)))) (write_bulks values) _ _
          (record { at = λ c. refl }) (write_bulks-Writes values)))

module _ {F : Floats} (client : Client F) (cache_name : String)
    (pop : Rpc client.State client.MomentoError (Lookup Bytes))
    (contents : client.State → List Bytes)
    (pops : (s : client.State)
      → ((pop s).0 ≡ done (first_of (contents s)))
        × (contents (pop s).1 ≡ drop 1 (contents s))) where
  -- What a pop leaves alone, and what is left.
  abbrev Left : List Bytes → Bytes → Context client.State → Type 0
  Left rest buf d = (contents d.backend ≡ rest) × (d.response_buf ≡ buf)

  abbrev Pops : ℕ → List Bytes → Context client.State → Type 0
  Pops n xs c =
      ((pop_each client cache_name pop n c).0 ≡ ok (take n xs))
      × Left (drop n xs) c.response_buf (pop_each client cache_name pop n c).1

  pop_each-Pops :
      (n : ℕ) (xs : List Bytes) (c : Context client.State) → contents c.backend ≡ xs → Pops n xs c
  unfolding pop_each
  pop_each-Pops zero xs c h = (refl, (h, refl))
  pop_each-Pops (suc n) [] c h =
      rw ((pops c.backend).0) (rw h (refl, ((pops c.backend).1 ∙ ap (drop 1) h, refl)))
  pop_each-Pops (suc n) (x ∷ xs) c h = rw ((pops c.backend).0) (
      rw h (
        continue-pure (pop_each client cache_name pop n _) (λ rest. x ∷ rest) (take n xs)
          (Left (drop n xs) c.response_buf)
          (pop_each-Pops n xs (record c { backend = (pop c.backend).1 })
            ((pops c.backend).1 ∙ ap (drop 1) h))))

  abbrev pub items : List Bytes → Reply
  items [] = nil_array
  items (x ∷ xs) = array (map bulk (x ∷ xs))

  items_reply-Writes :
      (xs : List Bytes) → Writes (items_reply client cache_name xs) (encode (items xs))
  unfolding items_reply
  items_reply-Writes [] = record { at = λ c. unfold encode in refl }
  items_reply-Writes (x ∷ xs) = array_of (length (x ∷ xs)) (x ∷ xs) (sym (length-map bulk (x ∷ xs)))

  after_pops :
      (r : Result (ProxyError client.MomentoError) (List Bytes) × Context client.State)
      (xs : List Bytes) (buf : Bytes)
      → r.0 ≡ ok xs
      → r.1.response_buf ≡ buf
      → response (continue r.0 (items_reply client cache_name) r.1) ≡ ok (buf ++ encode (items xs))
  after_pops r xs buf h q =
      rw h ((items_reply-Writes xs).at r.1 ∙ ap (λ b. ok (b ++ encode (items xs))) q)

  -- If the pops of the service hand out the elements of a list from one end, LPOP and RPOP with a count
  -- reply with the first elements of the list, as many as the count asks for or as there are, in their
  -- order, as one array; with the nil array if there are none.
  pub pop_with_lem :
      (n : ℕ) (key : Bytes) (c : Context client.State)
      → response (pop_with client cache_name pop key (some (suc n)) c)
        ≡ ok (c.response_buf ++ encode (items (take (suc n) (contents c.backend))))
  unfolding pop_with
  pop_with_lem n key c =
      let (h, (l, q)) = pop_each-Pops (suc n) (contents c.backend) c refl in
      after_pops (pop_each client cache_name pop (suc n) c) _ c.response_buf h q
