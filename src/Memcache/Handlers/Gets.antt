-- ===== src/Memcache/Handlers/Gets.antt =====
-- What a get of several keys answers.
use momento_proxy.Base.{
  ℕ, ◌≡◌, refl, ap, ◌∙◌, inl, inr, Bool, Option, none, some, List, [], ◌∷◌, ◌++◌, map, Bytes,
  String, Option-cases,
}
use momento_proxy.Base.Exec.{Result, ok, err, panicked, pure, continue, ◌>>=◌}
use momento_proxy.Error.{ProxyError, done, Lookup, hit, miss}
use momento_proxy.Client.{Floats, Client}
use momento_proxy.Cache.{Moka, MCache, Value}
use momento_proxy.Context.{Context, Handler}
use momento_proxy.Memcache.{Response, get, decode_value, Shared}
use momento_proxy.Memcache.Handlers.{
  fetched, fetch_key, answer_keys, drop_clone, run_get, run_get_keys, eager_keys, from_memory,
  collect, get_response, upstream_values, values_or_not_found, get_result, hit_result, service,
  handle_memcache_request, guarded, record_response, on_memory, look_up,
}

module _ {E S A : Type 0} where
  pub drop_clone_lem : (p : Result (ProxyError E) A × Context S) → (drop_clone p).0 ≡ p.0
  unfolding drop_clone
  drop_clone_lem (ok a, c) = refl
  drop_clone_lem (err e, c) = refl
  drop_clone_lem (panicked, c) = refl

module _ {E S A B : Type 0} where
  continue_ok :
      (r : Result (ProxyError E) A × Context S) (k : A → Handler S E B) (a : A)
      → r.0 ≡ ok a
      → continue r.0 k r.1 ≡ k a r.1
  continue_ok r k a h = rw h refl

  bind_ok :
      (m : Handler S E A) (k : A → Handler S E B) (c : Context S) (a : A)
      → (m c).0 ≡ ok a
      → (m >>= k) c ≡ k a (m c).1
  bind_ok m k c a h = continue_ok (m c) k a h

module _ {E S A B : Type 0} where
  continue-pure :
      (r : Result (ProxyError E) A × Context S) (g : A → B) (a : A) (s : S)
      → (r.0 ≡ ok a) × (r.1.backend ≡ s)
      → ((continue r.0 (λ x. pure (g x)) r.1).0 ≡ ok (g a))
        × ((continue r.0 (λ x. pure (g x)) r.1).1.backend ≡ s)
  continue-pure (ok x, c) g a s (p, q) = (cc, q)
  continue-pure (err e, c) g a s (p, q) = absurd (cc)
  continue-pure (panicked, c) g a s (p, q) = absurd (cc)

module _ {E S A B : Type 0} where
  map_ok :
      (r : Result (ProxyError E) A × Context S) (g : A → B) (a : A)
      → r.0 ≡ ok a
      → (continue r.0 (λ x. pure {E = ProxyError E} {S = Context S} (g x)) r.1).0 ≡ ok (g a)
  map_ok (ok x, c) g a p = cc
  map_ok (err e, c) g a p = cc
  map_ok (panicked, c) g a p = cc

-- The values that a lookup finds for keys, and the keys for which it finds none, in the order of the
-- keys.
abbrev pub found : (Bytes → Option Value) → List Bytes → List Value
found f [] = []
found f (key ∷ keys) = elim (f key) [ none ↦ found f keys | some v ↦ v ∷ found f keys ]

abbrev pub unknown : (Bytes → Option Value) → List Bytes → List Bytes
unknown f [] = []
unknown f (key ∷ keys) = elim (f key) [ none ↦ key ∷ unknown f keys | some v ↦ unknown f keys ]

upstream_values-found :
    (f : Bytes → Option Value) (keys : List Bytes)
    → upstream_values (map (λ key. fetched (f key)) keys) ≡ inr (found f keys)
unfolding upstream_values
upstream_values-found f [] = refl
upstream_values-found f (key ∷ keys) = elim (Option-cases (f key)) [
  | inl e ↦ rw (e, upstream_values, found) (upstream_values-found f keys)
  | inr (v, e) ↦
      rw (e, upstream_values, found) (rw (upstream_values-found f keys, upstream_values) refl)
]

module _ {F : Floats} (client : Client F) (M : Moka) (cache_name : String) (flags : Bool) (now : ℕ)
    (others : client.State → MCache M → MCache M) where
  open client use {State, MomentoError}

  abbrev pub in_memory : Context (Shared State M) → Bytes → Option Value
  in_memory c = look_up client M cache_name flags now others c.backend.1

  eager_keys_lem :
      (keys : List Bytes) (c : Context (Shared State M))
      → ((eager_keys client M cache_name flags now others keys c).0
          ≡ ok (found (in_memory c) keys, unknown (in_memory c) keys))
        × ((eager_keys client M cache_name flags now others keys c).1.backend ≡ c.backend)
  unfolding eager_keys from_memory
  eager_keys_lem [] c = (refl, refl)
  eager_keys_lem (key ∷ keys) c = elim (Option-cases (in_memory c key)) [
    | inl e ↦
        rw (e, found, unknown)
          (continue-pure (eager_keys client M cache_name flags now others keys _) _ _ _
            (eager_keys_lem keys _))
    | inr (v, e) ↦
        rw (e, found, unknown)
          (continue-pure (eager_keys client M cache_name flags now others keys _) _ _ _
            (eager_keys_lem keys _))
  ]

  module _ (answers : Bytes → Lookup Bytes)
      (reads : (key : Bytes) (s : State)
        → (client.get cache_name key s).0 ≡ done (answers key)) where
    -- The value that the service has for a key.
    abbrev pub stored_value : Bytes → Option Value
    stored_value key = elim (answers key) [ miss ↦ none | hit v ↦ decode_value flags key v ]

    hit_result_lem :
        (key : Bytes) (v : Option Value) (c : Context (Shared State M))
        → (hit_result client M cache_name flags now others key v c).0 ≡ ok (fetched v)
    unfolding hit_result
    hit_result_lem key none c = refl
    hit_result_lem key (some v) c = refl

    get_result_lem :
        (key : Bytes) (o : Lookup Bytes) (c : Context (Shared State M))
        → (get_result client M cache_name flags now others key (done o) c).0
          ≡ ok (fetched (elim o [ miss ↦ none | hit v ↦ decode_value flags key v ]))
    unfolding get_result
    get_result_lem key miss c = refl
    get_result_lem key (hit v) c = hit_result_lem key (decode_value flags key v) _

    run_get_lem :
        (key : Bytes) (c : Context (Shared State M))
        → (run_get client M cache_name flags now others key c).0 ≡ ok (fetched (stored_value key))
    unfolding run_get fetch_key service
    run_get_lem key c =
        drop_clone_lem (fetch_key client M cache_name flags now others key c)
        ∙ rw (reads key c.backend.0, fetch_key) (get_result_lem key (answers key) _)

    collect_lem :
        (keys : List Bytes) (c : Context (Shared State M))
        → (collect client M cache_name flags now others keys c).0
          ≡ ok (map (λ key. fetched (stored_value key)) keys)
    unfolding collect
    collect_lem [] c = refl
    collect_lem (key ∷ keys) c =
        ap (λ r. r.0)
          (bind_ok (run_get client M cache_name flags now others key) _ c _ (run_get_lem key c))
        ∙ map_ok (collect client M cache_name flags now others keys _)
            (λ rest. fetched (stored_value key) ∷ rest) _ (collect_lem keys _)

    get_response_lem :
        (eager vs : List Value) (c : Context (Shared State M))
        → (get_response client M cache_name flags now others eager (inr vs) c).0
          ≡ ok (values_or_not_found (vs ++ eager))
    unfolding get_response on_memory
    get_response_lem eager vs c = refl

    record_response_lem :
        (r : Result (ProxyError MomentoError) Response × Context (Shared State M))
        → (record_response client M cache_name flags now others r).0 ≡ r.0
    unfolding record_response
    record_response_lem (ok a, c) = refl
    record_response_lem (err e, c) = refl
    record_response_lem (panicked, c) = refl

    run_get_keys_lem :
        (keys : List Bytes) (c : Context (Shared State M))
        → (run_get_keys client M cache_name flags now others keys c).0
          ≡ ok (
              values_or_not_found
                (found stored_value (unknown (in_memory c) keys) ++ found (in_memory c) keys))
    unfolding run_get_keys answer_keys
    run_get_keys_lem keys c =
        drop_clone_lem (answer_keys client M cache_name flags now others keys c)
        ∙ ap (λ r. r.0)
            (bind_ok (eager_keys client M cache_name flags now others keys) _ c _
              (eager_keys_lem keys c).0)
        ∙ ap (λ r. r.0)
            (bind_ok (collect client M cache_name flags now others (unknown (in_memory c) keys)) _ _
              _
              (collect_lem (unknown (in_memory c) keys)
                (eager_keys client M cache_name flags now others keys c).1))
        ∙ rw (upstream_values-found stored_value (unknown (in_memory c) keys)) (
            get_response_lem (found (in_memory c) keys)
              (found stored_value (unknown (in_memory c) keys))
              (collect client M cache_name flags now others (unknown (in_memory c) keys)
                (eager_keys client M cache_name flags now others keys c).1).1)

    -- If the service answers each read, a get is answered by the values of the service for the keys
    -- that the in-memory cache does not have, in the order of the keys, and behind them the values of the
    -- in-memory cache, in the order of the keys; by `not_found` if there are none.
    pub get_answers :
        (keys : List Bytes) (c : Context (Shared State M))
        → (handle_memcache_request client M cache_name flags now others (get keys) c).0
          ≡ ok (
              values_or_not_found
                (found stored_value (unknown (in_memory c) keys) ++ found (in_memory c) keys))
    unfolding handle_memcache_request guarded
    get_answers keys c = drop_clone_lem _ ∙ record_response_lem _ ∙ run_get_keys_lem keys _
