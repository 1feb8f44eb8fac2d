-- ===== src/Memcache/Handlers/Caching.antt =====
-- What the requests do to the in-memory cache, and what they answer from it.
use momento_proxy.Base.{
  ℕ, ◌+◌, ◌<◌, ◌^◌, ◌≡◌, ◌≢◌, refl, ◌∙◌, ◌⊎◌, inl, inr, Bool, true, false, Option, none, some, [],
  ◌∷◌, Bytes, String,
}
use momento_proxy.Base.Text.{is_utf8}
use momento_proxy.Base.Exec.{Result, ok, err, panicked}
use momento_proxy.Error.{ProxyError, Outcome, done, failed, elapsed, hit}
use momento_proxy.Client.{Floats, Client}
use momento_proxy.Cache
use momento_proxy.Cache.{Moka, MCache, Value, CacheEntry, IsLawful}
use momento_proxy.Context.{Context}
use momento_proxy.Memcache.{Response, SetRequest, set, delete, encode_value, cached_value, Shared}
use momento_proxy.Memcache.Flags.{decode_value-encode_value}
use momento_proxy.Memcache.Handlers.{
  fetched, fetch_key, drop_clone, run_get, get_result, hit_result, service, run_delete,
  delete_checked, delete_result, handle_memcache_request, guarded, record_response, on_memory,
  change_memory, look_up, set_checked, set_result, run_set,
}

module _ {F : Floats} (client : Client F) (M : Moka) (cache_name : String) (flags : Bool) (now : ℕ)
    (others : client.State → MCache M → MCache M) where
  open client use {State, MomentoError}

  -- A `get` that finds under a key of the service what a `set` has sent to it, with flags of 32 bits and
  -- a value that is not empty, results in the value of that `set`.
  pub get_after_set :
      (r : SetRequest) (c : Context (Shared State M))
      → r.flags < 2 ^ 32
      → r.value ≢ []
      → (client.get cache_name r.key c.backend.0).0 ≡ done (hit (encode_value flags r))
      → (run_get client M cache_name flags now others r.key c).0
        ≡ ok (fetched (some (cached_value flags r)))
  unfolding run_get fetch_key drop_clone get_result service hit_result
  get_after_set r c h e found =
      rw (found, run_get) (rw (decode_value-encode_value flags r h e) refl)

  -- The in-memory cache's value of a key at an instant.
  abbrev pub recall : ℕ → Context (Shared State M) → Bytes → Option Value
  recall t c key = look_up client M cache_name flags t others c.backend.1 key

  abbrev memory_of : Context (Shared State M) → Option (MCache M)
  memory_of c = c.backend.1

  -- What is said of the memory, and is still so after what the other requests do to it.
  record Stable (P : Option (MCache M) → Type 0) : Type 0 where
    at : (s : State) (m : MCache M) → P (some m) → P (some (others s m))

  change : (MCache M → MCache M) → Option (MCache M) → Option (MCache M)
  change f m = change_memory client M cache_name flags now others f m

  awaited :
      (P : Option (MCache M) → Type 0)
      → Stable P
      → (s : State) (m : Option (MCache M)) → P m
      → P (change (others s) m)
  unfolding change change_memory
  awaited P h s none p = p
  awaited P h s (some m) p = h.at s m p

  Kept : (Option (MCache M) → Type 0) → Context (Shared State M) → Context (Shared State M) → Type 0
  Kept P c d = P (memory_of c) → P (memory_of d)

  delete_result-Kept :
      (P : Option (MCache M) → Type 0) (key : Bytes) (noreply : Bool)
      (o : Outcome MomentoError (Unit {0})) (c : Context (Shared State M))
      → Kept P c (delete_result client M cache_name flags now others key noreply o c).1
  unfolding delete_result Kept
  delete_result-Kept P key noreply (done _) c p = p
  delete_result-Kept P key noreply (failed e) c p = p
  delete_result-Kept P key noreply elapsed c p = p

  delete_checked-Kept :
      (P : Option (MCache M) → Type 0)
      → Stable P
      → (key : Bytes) (noreply valid : Bool) (c : Context (Shared State M))
      → Kept P c (delete_checked client M cache_name flags now others key noreply valid c).1
  unfolding delete_checked service Kept change
  delete_checked-Kept P h key noreply false c p = p
  delete_checked-Kept P h key noreply true c p =
      delete_result-Kept P key noreply _ _
        (awaited P h (client.delete cache_name key c.backend.0).1 (memory_of c) p)

  set_result-Kept :
      (P : Option (MCache M) → Type 0) (r : SetRequest) (ttl : Option ℕ)
      (o : Outcome MomentoError (Unit {0})) (c : Context (Shared State M))
      → Kept P c (set_result client M cache_name flags now others r ttl o c).1
  unfolding set_result Kept
  set_result-Kept P r ttl (done _) c p = p
  set_result-Kept P r ttl (failed e) c p = p
  set_result-Kept P r ttl elapsed c p = p

  drop_clone-Kept :
      (P : Option (MCache M) → Type 0)
      (r : Result (ProxyError MomentoError) Response × Context (Shared State M))
      → Kept P r.1 (drop_clone (record_response client M cache_name flags now others r)).1
  unfolding drop_clone record_response Kept
  drop_clone-Kept P (ok a, c) p = p
  drop_clone-Kept P (err e, c) p = p
  drop_clone-Kept P (panicked, c) p = p

  -- The other requests that are handled while the service is called put nothing under a key into the memory that
  -- is found at `t`. They may remove what is there.
  abbrev pub Spares : Bytes → ℕ → Type 0
  Spares key t =
      (s : State) (m : MCache M)
      → (Cache.get (others s m) t key ≡ none) ⊎ (Cache.get (others s m) t key ≡ Cache.get m t key)

  abbrev at_key : ℕ → Bytes → Option (MCache M) → Option Value
  at_key t key m = look_up client M cache_name flags t others m key

  spared :
      (key : Bytes) (t : ℕ)
      → Spares key t
      → (s : State) (m : MCache M)
      → (at_key t key (some (others s m)) ≡ none)
        ⊎ (at_key t key (some (others s m)) ≡ at_key t key (some m))
  unfolding look_up
  spared key t h s m = elim (h s m) [
    | inl e ↦ inl (rw (e, look_up) refl)
    | inr e ↦ inr (rw (e, look_up) refl)
  ]

  abbrev IsForgotten : ℕ → Bytes → Option (MCache M) → Type 0
  IsForgotten t key m = at_key t key m ≡ none

  IsForgotten-Stable : (key : Bytes) (t : ℕ) → Spares key t → Stable (IsForgotten t key)
  IsForgotten-Stable key t h = record {
    at = λ s m p. elim (spared key t h s m) [ inl e ↦ e | inr e ↦ e ∙ p ];
  }

  forgotten :
      IsLawful M
      → (key : Bytes) (t : ℕ) (m : Option (MCache M))
      → IsForgotten t key (change (λ m. Cache.delete m now key) m)
  unfolding look_up change change_memory Cache.delete Cache.get
  forgotten law key t none = refl
  forgotten law key t (some m) = rw (law.get-remove_self m.cache now t key, look_up) refl

  -- After a delete, the in-memory cache has no value for the key at a time, if no other request that is handled while
  -- the service is called puts one there: whether the service has deleted it, failed or timed out, and
  -- whether the key is valid or not.
  pub delete_forgets :
      IsLawful M
      → (key : Bytes) (noreply : Bool) (c : Context (Shared State M)) (t : ℕ) → Spares key t
      → recall t
          (handle_memcache_request client M cache_name flags now others (delete key noreply) c).1
          key
        ≡ none
  unfolding handle_memcache_request on_memory guarded run_delete Kept change
  delete_forgets law key noreply c t h =
      let P = IsForgotten t key in
      drop_clone-Kept P _ (
        delete_checked-Kept P (IsForgotten-Stable key t h) key noreply (is_utf8 key) _
          (forgotten law key t (memory_of c)))

  abbrev IsRemembered : ℕ → Bytes → Value → Option (MCache M) → Type 0
  IsRemembered t key v m = (at_key t key m ≡ none) ⊎ (at_key t key m ≡ some v)

  IsRemembered-Stable :
      (key : Bytes) (v : Value) (t : ℕ) → Spares key t → Stable (IsRemembered t key v)
  IsRemembered-Stable key v t h = record {
    at = λ s m p. elim (spared key t h s m) [
      | inl e ↦ inl e
      | inr e ↦ elim p [ inl q ↦ inl (e ∙ q) | inr q ↦ inr (e ∙ q) ]
    ];
  }

  remembered :
      IsLawful M
      → (key : Bytes) (v : Value) (t : ℕ) (m : Option (MCache M))
      → IsRemembered t key v (change (λ m. Cache.set m now key v) m)
  unfolding look_up change change_memory Cache.get Cache.set
  remembered law key v t none = inl refl
  remembered law key v t (some m) =
      elim (law.get-insert_self m.cache now t key (record { value = v; expire_at = now + m.ttl })) [
        | inl e ↦ inl (rw (e, look_up) refl)
        | inr e ↦ inr (rw (e, look_up) refl)
      ]

  set_checked-IsRemembered :
      IsLawful M
      → (r : SetRequest) (value : Bytes) (c : Context (Shared State M)) (t : ℕ) → Spares r.key t
      → value ≢ []
      → IsRemembered t r.key
          (cached_value flags r)
          (memory_of (set_checked client M cache_name flags now others r value c).1)
  unfolding set_checked on_memory service Kept change
  set_checked-IsRemembered law r [] c t h e = absurd (e refl)
  set_checked-IsRemembered law r (b ∷ rest) c t h e =
      let P = IsRemembered t r.key (cached_value flags r) in
      set_result-Kept P r _ _ _ (
        awaited P (IsRemembered-Stable r.key (cached_value flags r) t h) _ _
          (remembered law r.key (cached_value flags r) t (memory_of c)))

  -- After a set of a value that is not empty, the in-memory cache holds that value under the key or,
  -- where it has been evicted or has expired, nothing; an older value is gone. This is so whether the
  -- service has stored the value, failed or timed out, if no other request that is handled while it is called
  -- puts another value there.
  pub set_remembers :
      IsLawful M
      → (r : SetRequest) (c : Context (Shared State M)) (t : ℕ) → Spares r.key t
      → r.value ≢ []
      → (recall t (handle_memcache_request client M cache_name flags now others (set r) c).1 r.key
          ≡ none)
        ⊎ (recall t (handle_memcache_request client M cache_name flags now others (set r) c).1 r.key
            ≡ some (cached_value flags r))
  unfolding handle_memcache_request guarded run_set Kept
  set_remembers law r c t h e =
      drop_clone-Kept (IsRemembered t r.key (cached_value flags r)) _
        (set_checked-IsRemembered law r r.value _ t h e)
