-- ===== src/Memcache/Handlers/Observed.antt =====
-- How a request of memcache is observed.
use Prim.Native.Nat.{max}
use momento_proxy.Base.{
  ℕ, ◌+◌, ◌≤◌, ◌<◌, ◌≡◌, refl, ap, ◌∙◌, ◌⊎◌, inl, inr, Bool, true, false, Option, List, [], ◌∷◌,
  ◌++◌, append-nil, Bytes, String, length, Bool-cases, if◌then◌else◌, arith,
}
use momento_proxy.Base.Text.{is_utf8}
use momento_proxy.Base.Exec.{Result, ok, err}
use momento_proxy.Error.{ProxyError, io, Outcome, done, failed, elapsed}
use momento_proxy.Client.{Floats, Client}
use momento_proxy.Cache
use momento_proxy.Cache.{Moka, MCache, Value}
use momento_proxy.Context.{Context, Handler}
use momento_proxy.Metrics.{Event, Latency, observed, latency_ok, latency_error}
use momento_proxy.Metrics.Endpoints.{
  Endpoint, begin_shared, begin, record_api_call, memcached_get, memcached_set, memcached_delete,
}
use momento_proxy.Metrics.Rpc.{RpcCallGuard, new, complete_ok, complete_error, drop_guard}
use momento_proxy.Memcache.{Response, SetRequest, Request, get, set, delete, other, Shared}
use momento_proxy.Memcache.Handlers.{
  drop_clone, run_get_keys, run_delete, delete_checked, delete_result, run_set, set_checked,
  set_result, service, on_memory, record_response, is_error, guarded, handle_memcache_request,
}
use momento_proxy.Metrics.Observations.{observations, seen, of_answers, observations-append, counts}
use momento_proxy.Memcache.Handlers.Watched.{run_get_keys-Returns}

end_seen :
    (es : List Event) (recorded : Bool) (rpc : String) (l : Latency)
    → seen (es ++ (if recorded then [] else observed rpc l ∷ []))
      ≡ (if recorded then seen es else seen es + 1)
end_seen es true rpc l = omega counts
end_seen es false rpc l = omega counts

unanswered :
    (es : List Event) (recorded : Bool) (rpc : String) (l : Latency)
    → recorded ≡ true
    → of_answers (es ++ (if recorded then [] else observed rpc l ∷ [])) ≡ of_answers es
unanswered es true rpc l h = omega counts
unanswered es false rpc l h = cc

between :
    (x y n t : ℕ) (recorded : Bool)
    → 1 ≤ n
    → x ≤ y + n
    → ((recorded ≡ false) × (x ≡ y)) ⊎ ((recorded ≡ true) × (y < x))
    → t ≡ (if recorded then x else x + 1)
    → (y + 1 ≤ t) × (t ≤ y + n)
between x y n t true l h (inl (e, k)) q = cc
between x y n t false l h (inl (e, k)) q = omega arith
between x y n t true l h (inr (e, k)) q = omega arith
between x y n t false l h (inr (e, k)) q = cc

module _ {F : Floats} (client : Client F) (M : Moka) (cache_name : String) (flags : Bool) (now : ℕ)
    (others : client.State → MCache M → MCache M) where
  open client use {State, MomentoError}

  -- How a response is observed.
  abbrev pub outcome : Response → Latency
  outcome r = if is_error client M cache_name flags now others r then latency_error else latency_ok

  -- The end of a request that has been answered: its guard observes the response if it has observed nothing.
  answered_end :
      (r : Response) (d : Context (Shared State M))
      → (drop_clone (record_response client M cache_name flags now others (ok r, d))).1.events
        ≡ d.events ++ (if d.recorder.recorded then [] else observed d.recorder.rpc (outcome r) ∷ [])
  unfolding record_response drop_clone complete_ok complete_error drop_guard
  answered_end r d = elim (Bool-cases d.recorder.recorded) [
    | inl e ↦ elim (Bool-cases (is_error client M cache_name flags now others r)) [
      | inl f ↦ rw (f, e) (simp append-nil)
      | inr f ↦ rw (f, e) (simp append-nil)
    ]
    | inr e ↦ elim (Bool-cases (is_error client M cache_name flags now others r)) [
      | inl f ↦ rw (f, e) (simp append-nil)
      | inr f ↦ rw (f, e) (simp append-nil)
    ]
  ]

  -- A step that answers and leaves its guard alone.
  abbrev Answers :
      Handler (Shared State M) MomentoError Response → Context (Shared State M) → Type 0
  Answers m c =
      (r : Response) × (d : Context (Shared State M)) × (m c ≡ (ok r, d))
      × (observations d.events ≡ observations c.events)
      × (d.recorder ≡ c.recorder)

  delete_result-Answers :
      (key : Bytes) (noreply : Bool) (o : Outcome MomentoError (Unit {0}))
      (c : Context (Shared State M))
      → Answers (delete_result client M cache_name flags now others key noreply o) c
  unfolding delete_result
  delete_result-Answers key noreply (done _) c =
      (_, _, refl, simp (observations-append, append-nil), refl)
  delete_result-Answers key noreply (failed e) c =
      (_, _, refl, simp (observations-append, append-nil), refl)
  delete_result-Answers key noreply elapsed c =
      (_, _, refl, simp (observations-append, append-nil), refl)

  delete_checked-Answers :
      (key : Bytes) (noreply valid : Bool) (c : Context (Shared State M))
      → Answers (delete_checked client M cache_name flags now others key noreply valid) c
  unfolding delete_checked service
  delete_checked-Answers key noreply false c =
      (_, _, refl, simp (observations-append, append-nil), refl)
  delete_checked-Answers key noreply true c =
      let (r, d, h, o, g) = delete_result-Answers key noreply _ _ in
      (r, d, h, o ∙ simp (observations-append, append-nil), g)

  set_result-Answers :
      (q : SetRequest) (ttl : Option ℕ) (o : Outcome MomentoError (Unit {0}))
      (c : Context (Shared State M))
      → Answers (set_result client M cache_name flags now others q ttl o) c
  unfolding set_result
  set_result-Answers q ttl (done _) c = (_, _, refl, simp (observations-append, append-nil), refl)
  set_result-Answers q ttl (failed e) c = (_, _, refl, simp (observations-append, append-nil), refl)
  set_result-Answers q ttl elapsed c = (_, _, refl, simp (observations-append, append-nil), refl)

  set_checked-Answers :
      (q : SetRequest) (value : Bytes) (c : Context (Shared State M))
      → Answers (set_checked client M cache_name flags now others q value) c
  unfolding set_checked service on_memory
  set_checked-Answers q [] c = (_, _, refl, simp (observations-append, append-nil), refl)
  set_checked-Answers q (b ∷ bs) c =
      let (r, d, h, o, g) = set_result-Answers q _ _ _ in
      (r, d, h, o ∙ simp (observations-append, append-nil), g)

  run_delete-Answers :
      (key : Bytes) (noreply : Bool) (c : Context (Shared State M))
      → Answers (run_delete client M cache_name flags now others key noreply) c
  unfolding run_delete
  run_delete-Answers key noreply c =
      let (r, d, h, o, g) = delete_checked-Answers key noreply (is_utf8 key) _ in
      (r, d, h, o ∙ simp (observations-append, append-nil), g)

  run_set-Answers :
      (q : SetRequest) (c : Context (Shared State M))
      → Answers (run_set client M cache_name flags now others q) c
  unfolding run_set
  run_set-Answers q c =
      let (r, d, h, o, g) = set_checked-Answers q q.value _ in
      (r, d, h, o ∙ simp (observations-append, append-nil), g)

  -- The observations of a request that ends in `p`, from `c` on, one for the response.
  abbrev pub ObservedOnce :
      Context (Shared State M)
      → Result (ProxyError MomentoError) Response × Context (Shared State M)
      → Type 0
  ObservedOnce c p =
      (r : Response) × (p.0 ≡ ok r)
      × (observations p.1.events ≡ observations c.events ++ outcome r ∷ [])

  guarded-ObservedOnce :
      (rpc : Endpoint) (m : Handler (Shared State M) MomentoError Response)
      (c : Context (Shared State M))
      → Answers m (record c { recorder = begin_shared rpc })
      → ObservedOnce c (guarded client M cache_name flags now others rpc m c)
  unfolding guarded record_response drop_clone begin_shared begin record_api_call new
  guarded-ObservedOnce rpc m c (r, d, h, o, g) =
      let e : d.recorder.recorded ≡ false = ap (λ (x : RpcCallGuard). x.recorded) g in
      let last = λ (p : Result (ProxyError MomentoError) Response × Context (Shared State M)).
        (drop_clone (record_response client M cache_name flags now others p)).1 in
      (
        r,
        ap (λ p. (drop_clone (record_response client M cache_name flags now others p)).0) h,
        ap (λ p. observations (last p).events) h
            ∙ ap observations (answered_end r d)
            ∙ observations-append d.events _
            ∙ ap
                (λ b.
                  observations d.events
                  ++ observations (if b then [] else observed d.recorder.rpc (outcome r) ∷ []))
                e
            ∙ ap (λ x. x ++ outcome r ∷ []) o,
      )

  guarded-get :
      (keys : List Bytes) (c : Context (Shared State M))
      → (r : Response) × ((guarded client M cache_name flags now others memcached_get
            (run_get_keys client M cache_name flags now others keys)
            c).0
          ≡ ok r)
        × (seen c.events + 1
            ≤ seen
                (guarded client M cache_name flags now others memcached_get
                  (run_get_keys client M cache_name flags now others keys)
                  c).1.events)
        × (seen
              (guarded client M cache_name flags now others memcached_get
                (run_get_keys client M cache_name flags now others keys)
                c).1.events
            ≤ seen c.events + max 1 (length keys))
        × (of_answers
              (guarded client M cache_name flags now others memcached_get
                (run_get_keys client M cache_name flags now others keys)
                c).1.events
            ≡ of_answers c.events)
  unfolding guarded record_response drop_clone begin_shared begin record_api_call new
  guarded-get keys c =
      let c' : Context (Shared State M) = record c { recorder = begin_shared memcached_get } in
      let (r, d, h, (most, same, some_seen), recorded) =
        run_get_keys-Returns client M cache_name flags now others keys c' in
      let last = λ (p : Result (ProxyError MomentoError) Response × Context (Shared State M)).
        (drop_clone (record_response client M cache_name flags now others p)).1 in
      let e = ap (λ p. seen (last p).events) h ∙ ap seen (answered_end r d) in
      let (low, high) =
        between (seen d.events) (seen c.events) (max 1 (length keys)) _ d.recorder.recorded
          (omega arith) most some_seen
          (e ∙ end_seen d.events d.recorder.recorded d.recorder.rpc (outcome r)) in
      (
        r,
        ap (λ p. (drop_clone (record_response client M cache_name flags now others p)).0) h,
        low,
        high,
        ap (λ p. of_answers (last p).events) h
            ∙ ap of_answers (answered_end r d)
            ∙ unanswered d.events d.recorder.recorded d.recorder.rpc (outcome r) recorded
            ∙ same,
      )

  -- How a request is observed between `c` and its end.
  abbrev pub ObservedAs :
      Request
      → Context (Shared State M)
      → Result (ProxyError MomentoError) Response × Context (Shared State M)
      → Type 0
  ObservedAs (get keys) c p =
      (r : Response) × (p.0 ≡ ok r)
      × (seen c.events + 1 ≤ seen p.1.events)
      × (seen p.1.events ≤ seen c.events + max 1 (length keys))
      × (of_answers p.1.events ≡ of_answers c.events)
  ObservedAs (set q) c p = ObservedOnce c p
  ObservedAs (delete key noreply) c p = ObservedOnce c p
  ObservedAs (other name) c p =
      (p.0 ≡ err (io "unsupported"))
      × (observations p.1.events ≡ observations c.events ++ latency_error ∷ [])

  -- Whatever the service does, a set or delete gets a response and is observed once, as an error if the
  -- response is one and else as ok. A get gets a response and is observed at least once, and at most once for
  -- each key or once if it has none; never as ok or as an error, whatever its response is. Any other
  -- request ends in an error and is observed as one.
  pub handle_memcache_request-ObservedAs :
      (q : Request) (c : Context (Shared State M))
      → ObservedAs q c (handle_memcache_request client M cache_name flags now others q c)
  unfolding handle_memcache_request on_memory guarded record_response drop_clone begin_shared begin
      record_api_call new complete_error drop_guard
  handle_memcache_request-ObservedAs (get keys) c = guarded-get keys c
  handle_memcache_request-ObservedAs (set q) c =
      guarded-ObservedOnce memcached_set (run_set client M cache_name flags now others q) c
        (run_set-Answers q _)
  handle_memcache_request-ObservedAs (delete key noreply) c =
      guarded-ObservedOnce memcached_delete
        (run_delete client M cache_name flags now others key noreply)
        (on_memory client M cache_name flags now others (λ m. Cache.delete m now key) c).1
        (run_delete-Answers key noreply _)
  handle_memcache_request-ObservedAs (other name) c = (refl, simp (observations-append, append-nil))
