-- ===== src/Memcache/Handlers/Watched.antt =====
-- How often a memcache get is observed before its end.
use Prim.Native.Nat.{max}
use momento_proxy.Base.{
  sym, Bool-cases, ℕ, suc, ◌+◌, ◌≤◌, ◌<◌, ◌≡◌, refl, ap, ◌∙◌, ◌⊎◌, inl, inr, Bool, true, Option,
  none, some, List, [], ◌∷◌, ◌++◌, Bytes, String, length, Option-cases, arith,
}
use momento_proxy.Base.Exec.{ok, continue, pure, ◌>>=◌}
use momento_proxy.Error.{Outcome, done, failed, elapsed, Lookup, hit, miss}
use momento_proxy.Client.{Floats, Client}
use momento_proxy.Cache.{Moka, MCache, Value}
use momento_proxy.Context.{Context, Handler, observe}
use momento_proxy.Metrics.{latency_hit_mcache, backend_request, get_key_hit, add, observed}
use momento_proxy.Metrics.Observations.{seen, of_answers, counts}
use momento_proxy.Metrics.Rpc.{complete_miss, complete_hit_mcache, complete_hit_momento, drop_guard}
use momento_proxy.Memcache.{Response, decode_value, Shared}
use momento_proxy.Memcache.Handlers.{
  drop_clone, fetch_key, answer_keys, run_get, run_get_keys, eager_keys, from_memory, collect,
  get_response, upstream_values, get_result, hit_result, service, on_memory, look_up,
}

module _ {S : Type 0} where
  -- From `c` to `d` there are at most `n` observations, none of them of an answer; the guard knows whether there are any.
  abbrev pub Watched : ℕ → Context S → Context S → Type 0
  Watched n c d =
      (seen d.events ≤ seen c.events + n)
      × (of_answers d.events ≡ of_answers c.events)
      × (((d.recorder.recorded ≡ c.recorder.recorded) × (seen d.events ≡ seen c.events))
          ⊎ ((d.recorder.recorded ≡ true) × (seen c.events < seen d.events)))

  Watched-trans :
      (n k : ℕ) (c d e : Context S) → Watched n c d → Watched k d e → Watched (n + k) c e
  Watched-trans n k c d e (p, x, inl (a, q)) (r, y, inl (b, t)) =
      (omega arith, y ∙ x, inl (b ∙ a, omega arith))
  Watched-trans n k c d e (p, x, inl (a, q)) (r, y, inr (b, t)) =
      (omega arith, y ∙ x, inr (b, omega arith))
  Watched-trans n k c d e (p, x, inr (a, q)) (r, y, inl (b, t)) =
      (omega arith, y ∙ x, inr (b ∙ a, omega arith))
  Watched-trans n k c d e (p, x, inr (a, q)) (r, y, inr (b, t)) =
      (omega arith, y ∙ x, inr (b, omega arith))

  -- The drop of a clone makes an observation where there has been none.
  Watched-drop :
      (E : Type 0) (n : ℕ) (c d : Context S)
      → 1 ≤ n
      → Watched n c d
      → Watched n c (observe {S = S} {E = E} drop_guard d).1
  unfolding drop_guard
  Watched-drop E n c d l (p, x, inl (a, q)) = elim (Bool-cases d.recorder.recorded) [
    | inl e ↦ rw e (omega counts, omega counts, inl (sym e ∙ a, omega counts))
    | inr e ↦ rw e (omega counts, omega counts, inr (refl, omega counts))
  ]
  Watched-drop E n c d l (p, x, inr (a, q)) =
      rw a (omega counts, omega counts, inr (refl, omega counts))

module _ {F : Floats} (client : Client F) (M : Moka) (cache_name : String) (flags : Bool) (now : ℕ)
    (others : client.State → MCache M → MCache M) where
  open client use {State, MomentoError}

  abbrev pub Events : Type 0
  Events = Context (Shared State M)

  -- A step that returns a value and makes at most `n` observations.
  abbrev pub Returns : {A : Type 0} → ℕ → Handler (Shared State M) MomentoError A → Events → Type 0
  Returns {A} n m c = (a : A) × (d : Events) × (m c ≡ (ok a, d)) × Watched n c d

  hit_result-Returns :
      (key : Bytes) (v : Option Value) (c : Events)
      → Returns 1 (hit_result client M cache_name flags now others key v) c
  unfolding hit_result complete_miss complete_hit_momento
  hit_result-Returns key none c =
      (_, _, refl, (omega counts, omega counts, inr (refl, omega counts)))
  hit_result-Returns key (some v) c =
      (_, _, refl, (omega counts, omega counts, inr (refl, omega counts)))

  get_result-Returns :
      (key : Bytes) (o : Outcome MomentoError (Lookup Bytes)) (c : Events)
      → Returns 1 (get_result client M cache_name flags now others key o) c
  unfolding get_result complete_miss
  get_result-Returns key (done (hit v)) c =
      let c' : Events = record c { events = c.events ++ add get_key_hit 1 ∷ [] } in
      let (a, d, e, w) = hit_result-Returns key (decode_value flags key v) c' in
      let v : Watched 0 c c' = (omega counts, omega counts, inl (refl, omega counts)) in
      let (p, z, q) = Watched-trans 0 1 c c' d v w in (a, d, e, (omega arith, z, q))
  get_result-Returns key (done miss) c =
      (_, _, refl, (omega counts, omega counts, inr (refl, omega counts)))
  get_result-Returns key (failed e) c =
      (_, _, refl, (omega counts, omega counts, inl (refl, omega counts)))
  get_result-Returns key elapsed c =
      (_, _, refl, (omega counts, omega counts, inl (refl, omega counts)))

  dropped-Returns :
      {A : Type 0}
      → (n : ℕ) (m : Handler (Shared State M) MomentoError A) (c : Events) → 1 ≤ n
      → Returns n m c
      → Returns n (λ d. drop_clone (m d)) c
  unfolding drop_clone
  dropped-Returns n m c l (a, d, h, w) =
      (a, _, ap drop_clone h, Watched-drop MomentoError n c d l w)

  run_get-Returns :
      (key : Bytes) (c : Events) → Returns 1 (run_get client M cache_name flags now others key) c
  unfolding run_get fetch_key service
  run_get-Returns key c =
      dropped-Returns 1 (fetch_key client M cache_name flags now others key) c (omega arith)
        (get_result-Returns key _ _)

  collect-Returns :
      (keys : List Bytes) (c : Events)
      → Returns (length keys) (collect client M cache_name flags now others keys) c
  unfolding collect
  collect-Returns [] c = ([], c, refl, (omega arith, refl, inl (refl, refl)))
  collect-Returns (key ∷ keys) c =
      let (r, d, h, w) = run_get-Returns key c in
      let (rs, e, k, v) = collect-Returns keys d in
      let (p, z, q) = Watched-trans 1 (length keys) c d e w v in
      (
        r ∷ rs,
        e,
        ap
              (λ x.
                continue x.0
                  (λ y.
                    collect client M cache_name flags now others keys >>= λ rest. pure (y ∷ rest))
                  x.1)
              h
            ∙ ap (λ x. continue x.0 (λ rest. pure (r ∷ rest)) x.1) k,
        (omega arith, z, q),
      )

  -- The keys that are left, and the observations of the others.
  eager_keys-Returns :
      (keys : List Bytes) (c : Events)
      → (split : List Value × List Bytes) × (d : Events) × (n : ℕ) × (eager_keys client M cache_name
            flags now others keys c
          ≡ (ok split, d))
        × (n + length split.1 ≡ length keys)
        × Watched n c d
  unfolding eager_keys from_memory complete_hit_mcache
  eager_keys-Returns [] c =
      (([], []), c, 0, refl, omega arith, (omega arith, refl, inl (refl, refl)))
  eager_keys-Returns (key ∷ keys) c =
      elim (Option-cases (look_up client M cache_name flags now others c.backend.1 key)) [
        | inl none_there ↦
            let c' : Events = record c { events = c.events ++ add backend_request 1 ∷ [] } in
            let (split, d, n, h, l, w) = eager_keys-Returns keys c' in
            let v : Watched 0 c c' = (omega counts, omega counts, inl (refl, omega counts)) in
            let (p, z, q) = Watched-trans 0 n c c' d v w in
            (
              (split.0, key ∷ split.1),
              d,
              n,
              rw none_there (ap (λ x. continue x.0 (λ rest. pure (rest.0, key ∷ rest.1)) x.1) h),
              omega arith,
              (omega arith, z, q),
            )
        | inr (value, there) ↦
            let c' : Events = record c {
              recorder = record c.recorder { recorded = true };
              events = c.events ++ observed c.recorder.rpc latency_hit_mcache ∷ [];
            } in
            let (split, d, n, h, l, w) = eager_keys-Returns keys c' in
            let v : Watched 1 c c' = (omega counts, omega counts, inr (refl, omega counts)) in
            let (p, z, q) = Watched-trans 1 n c c' d v w in
            (
              (value ∷ split.0, split.1),
              d,
              suc n,
              rw there (ap (λ x. continue x.0 (λ rest. pure (value ∷ rest.0, rest.1)) x.1) h),
              omega arith,
              (omega arith, z, q),
            )
      ]

  get_response-Returns :
      (eager : List Value) (u : Bytes ⊎ List Value) (c : Events)
      → Returns 0 (get_response client M cache_name flags now others eager u) c
  unfolding get_response on_memory
  get_response-Returns eager (inl e) c = (_, _, refl, (omega arith, refl, inl (refl, refl)))
  get_response-Returns eager (inr vs) c = (_, _, refl, (omega arith, refl, inl (refl, refl)))

  answer_keys-Returns :
      (keys : List Bytes) (c : Events)
      → Returns (max 1 (length keys)) (answer_keys client M cache_name flags now others keys) c
  unfolding answer_keys
  answer_keys-Returns keys c =
      let (split, d, n, h, l, w) = eager_keys-Returns keys c in
      let (rs, e, k, v) = collect-Returns split.1 d in
      let (r, f, j, u) = get_response-Returns split.0 (upstream_values rs) e in
      let (p, z, q) = Watched-trans n (length split.1) c d e w v in
      let (p', z', q') = Watched-trans (n + length split.1) 0 c e f (p, z, q) u in
      (
        r,
        f,
        ap
              (λ x.
                continue x.0
                  (λ s. collect client M cache_name flags now others s.1 >>= λ results.
                    get_response client M cache_name flags now others s.0 (upstream_values results))
                  x.1)
              h
            ∙ ap
                (λ x.
                  continue x.0
                    (λ results.
                      get_response client M cache_name flags now others split.0
                        (upstream_values results))
                    x.1)
                k
            ∙ j,
        (omega arith, z', q'),
      )

  dropped-recorded :
      {A : Type 0}
      → (a : A) (d : Events) → (drop_clone {E = MomentoError} (ok a, d)).1.recorder.recorded ≡ true
  unfolding drop_clone drop_guard
  dropped-recorded a d = elim (Bool-cases d.recorder.recorded) [ inl e ↦ simp e | inr e ↦ simp e ]

  -- A get makes one observation at most for each key, or one if it has none. It makes one at least, and its guard
  -- knows that; none is of an answer.
  pub run_get_keys-Returns :
      (keys : List Bytes) (c : Events)
      → (a : Response) × (d : Events) × (run_get_keys client M cache_name flags now others keys c
          ≡ (ok a, d))
        × Watched (max 1 (length keys)) c d
        × (d.recorder.recorded ≡ true)
  unfolding run_get_keys drop_clone
  run_get_keys-Returns keys c =
      let (a, d, h, w) = answer_keys-Returns keys c in
      (
        a,
        _,
        ap drop_clone h,
        Watched-drop MomentoError (max 1 (length keys)) c d (omega arith) w,
        dropped-recorded a d,
      )
