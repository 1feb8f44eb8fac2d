-- ===== src/Memcache/Handlers.antt =====
-- The handlers of src/protocol/memcache, and `handle_memcache_request` of src/frontend.rs.
pub mod Caching
pub mod Gets
pub mod Watched
pub mod Observed
use mathlib.Core.Option
use momento_proxy.Base.{
  ℕ, ◌≡◌, refl, ◌⊎◌, inl, inr, Bool, true, false, not, Option, none, some, List, [], ◌∷◌, ◌++◌, map,
  Bytes, String, codes, length, if◌then◌else◌,
}
use momento_proxy.Base.Int.{ℤ, pos, negsuc}
use momento_proxy.Base.Text.{is_utf8}
use momento_proxy.Base.Exec.{Exec, Result, ok, err, panicked, pure, raise, ◌>>=◌, ◌>>◌}
use momento_proxy.Error.{ProxyError, io, Outcome, done, failed, elapsed, Lookup, hit, miss}
use momento_proxy.Client.{Floats, Client, Rpc}
use momento_proxy.Metrics.{
  Method, Event, Counter, calls, ex, stored, deleted, get_key_hit, get_key_miss, backend_request,
  backend_ex, backend_ex_timeout, session_send,
}
use momento_proxy.Metrics.Endpoints.{
  Endpoint, begin_shared, memcached_delete, memcached_get, memcached_set, memcached_unimplemented,
}
use momento_proxy.Metrics.Rpc
use momento_proxy.Metrics.Rpc.{
  RpcCallGuard, complete_ok, complete_error, complete_miss, complete_hit_mcache,
  complete_hit_momento, drop_guard,
}
use momento_proxy.Klog.{Status, klog_1, klog_set}
use momento_proxy.Cache
use momento_proxy.Cache.{Moka, MCache, Value, CacheEntry}
use momento_proxy.Context.{Context, Handler, increment, klog, observe, call}
use momento_proxy.Resp.Strings.{as_i32}
use momento_proxy.Memcache.{
  Response, values, not_found, stored_reply, deleted_reply, client_error, server_error, error,
  SetRequest, Request, get, set, delete, other, at_least_one, decode_value, encode_value,
  cached_value, Shared,
}

-- `Result<Option<Value>, Error>` of one key; an error is its text.
pub data Fetched : Type 0 where
  fetched : Option Value → Fetched
  fetch_error : Bytes → Fetched

-- The values in the order of the keys, or the first error.
unfoldable pub upstream_values : List Fetched → Bytes ⊎ List Value
upstream_values [] = inr []
upstream_values (fetch_error e ∷ rs) = inl e
upstream_values (fetched none ∷ rs) = upstream_values rs
upstream_values (fetched (some v) ∷ rs) = elim (upstream_values rs) [
  | inl e ↦ inl e
  | inr vs ↦ inr (v ∷ vs)
]

pub values_or_not_found : List Value → Response
values_or_not_found [] = not_found false
values_or_not_found (v ∷ vs) = values (v ∷ vs)

module _ {S E A : Type 0} where
  -- A clone of the guard goes out of scope. A panic ends the process before anything is dropped.
  pub drop_clone : Result (ProxyError E) A × Context S → Result (ProxyError E) A × Context S
  drop_clone (ok a, c) = (ok a, (observe {E = E} drop_guard c).1)
  drop_clone (err e, c) = (err e, (observe {E = E} drop_guard c).1)
  drop_clone (panicked, c) = (panicked, c)

module _ {F : Floats} (client : Client F) (M : Moka) (cache_name : String) (flags : Bool) (now : ℕ)
    (others : client.State → MCache M → MCache M) where
  open client use {State, MomentoError, display}

  abbrev Action : Type 0 → Type 0
  Action A = Handler (Shared State M) MomentoError A

  pub change_memory : (MCache M → MCache M) → Option (MCache M) → Option (MCache M)
  change_memory f none = none
  change_memory f (some m) = some (f m)

  -- A call of the service. While it is awaited, `others` happens to the in-memory cache: what the tasks of
  -- other requests, which share it, do.
  service : {A : Type 0} → Rpc State MomentoError A → Rpc (Shared State M) MomentoError A
  unfolding change_memory
  service rpc (s, m) = let (o, s') = rpc s in (o, (s', change_memory (others s') m))

  -- `if let Some(memory_cache) = &memory_cache { .. }`
  on_memory : (MCache M → MCache M) → Action (Unit {0})
  unfolding change_memory
  on_memory f c = (ok tt, record c { backend = (c.backend.0, change_memory f c.backend.1) })

  pub look_up : Option (MCache M) → Bytes → Option Value
  look_up none key = none
  look_up (some m) key = elim (Cache.get m now key) [ none ↦ none | some e ↦ some e.value ]

  -- The in-memory cache's value of a key, if it has one.
  from_memory : Bytes → Action (Option Value)
  unfolding look_up
  from_memory key c = (ok (look_up c.backend.1 key), c)

  delete_result : Bytes → Bool → Outcome MomentoError (Unit {0}) → Action Response
  delete_result key noreply (done _) = do
    increment (deleted Method.delete)
    klog (klog_1 "delete" key Status.deleted 0)
    pure (deleted_reply noreply)
  delete_result key noreply (failed e) = do
    increment backend_ex
    increment (ex Method.delete)
    increment session_send
    klog (klog_1 "delete" key Status.server_error 0)
    pure (server_error (display e))
  delete_result key noreply elapsed = do
    increment backend_ex
    increment backend_ex_timeout
    increment (ex Method.delete)
    increment session_send
    klog (klog_1 "delete" key Status.timeout 0)
    pure (server_error (codes "backend timeout"))

  delete_checked : Bytes → Bool → Bool → Action Response
  unfolding delete_result service
  delete_checked key noreply false = do
    increment (ex Method.delete)
    pure (client_error (codes "invalid key"))
  delete_checked key noreply true = do
    increment backend_request
    outcome ← call (service (client.delete cache_name key))
    delete_result key noreply outcome

  unfoldable pub run_delete : Bytes → Bool → Action Response
  unfolding delete_checked
  run_delete key noreply = do
    increment (calls Method.delete)
    delete_checked key noreply (is_utf8 key)

  -- The two ends of a hit: the value is there, or too short to carry its flags.
  hit_result : Bytes → Option Value → Action Fetched
  hit_result key none = do
    observe complete_miss
    klog (klog_1 "get" key Status.miss 0)
    pure (fetched none)
  hit_result key (some value) = do
    observe complete_hit_momento
    klog (klog_1 "get" key Status.hit (length value.content))
    pure (fetched (some value))

  get_result : Bytes → Outcome MomentoError (Lookup Bytes) → Action Fetched
  unfolding hit_result
  get_result key (done (hit value)) = do
    increment get_key_hit
    hit_result key (decode_value flags key value)
  get_result key (done miss) = do
    increment get_key_miss
    observe complete_miss
    klog (klog_1 "get" key Status.miss 0)
    pure (fetched none)
  get_result key (failed e) = do
    increment backend_ex
    klog (klog_1 "get" key Status.server_error 0)
    pure (fetch_error (display e))
  get_result key elapsed = do
    increment backend_ex
    increment backend_ex_timeout
    klog (klog_1 "get" key Status.timeout 0)
    pure (fetch_error (codes "backend timeout"))

  fetch_key : Bytes → Action Fetched
  unfolding get_result service
  fetch_key key = do outcome ← call (service (client.get cache_name key)); get_result key outcome

  -- With the drop of its clone of the guard.
  unfoldable pub run_get : Bytes → Action Fetched
  unfolding fetch_key drop_clone
  run_get key c = drop_clone (fetch_key key c)

  -- `for key in request.keys() { .. }`: the hits of the in-memory cache and the keys that are left for
  -- the service, whose tasks start when they are collected.
  eager_keys : List Bytes → Action (List Value × List Bytes)
  unfolding from_memory
  eager_keys [] = pure ([], [])
  eager_keys (key ∷ keys) = do
    found ← from_memory key
    elim found [
      | some value ↦
          (observe complete_hit_mcache >>= λ _.
          eager_keys keys >>= λ rest. pure (value ∷ rest.0, rest.1))
      | none ↦
          (increment backend_request >>= λ _.
          eager_keys keys >>= λ rest. pure (rest.0, key ∷ rest.1))
    ]

  -- `tasks.collect()`, in the order of the keys; the tasks are taken to run one after another.
  collect : List Bytes → Action (List Fetched)
  unfolding run_get
  collect [] = pure []
  collect (key ∷ keys) = do r ← run_get key; rest ← collect keys; pure (r ∷ rest)

  -- `for value in values.iter() { memory_cache.set(..) }`
  backfill : List Value → MCache M → MCache M
  backfill [] m = m
  backfill (v ∷ vs) m = backfill vs (Cache.set m now v.key v)

  get_response : List Value → Bytes ⊎ List Value → Action Response
  unfolding backfill on_memory values_or_not_found
  get_response eager_hits (inl e) = pure (server_error e)
  get_response eager_hits (inr upstream) = do
    on_memory (backfill upstream)
    pure (values_or_not_found (upstream ++ eager_hits))

  answer_keys : List Bytes → Action Response
  unfolding eager_keys collect upstream_values get_response
  answer_keys keys = do
    split ← eager_keys keys
    results ← collect split.1
    get_response split.0 (upstream_values results)

  -- With the drop of `mcache_recorder`.
  unfoldable pub run_get_keys : List Bytes → Action Response
  unfolding answer_keys drop_clone
  run_get_keys keys c = drop_clone (answer_keys keys c)

  set_log : SetRequest → ℤ → Status → ℕ → Bytes
  set_log r ttl status len = klog_set r.key r.flags ttl (length r.value) status len

  or_zero : Option ℤ → ℤ
  or_zero none = pos 0
  or_zero (some t) = t

  seconds_or_zero : Option ℕ → ℤ
  seconds_or_zero none = pos 0
  seconds_or_zero (some t) = as_i32 t

  set_result : SetRequest → Option ℕ → Outcome MomentoError (Unit {0}) → Action Response
  unfolding set_log or_zero seconds_or_zero
  set_result r ttl (done _) = do
    increment (stored Method.set)
    klog (
        if r.noreply
        then set_log r (or_zero r.ttl) Status.stored 0
        else set_log r (seconds_or_zero ttl) Status.stored (length r.value))
    pure (stored_reply r.noreply)
  set_result r ttl (failed e) = do
    increment backend_ex
    increment (ex Method.set)
    increment session_send
    klog (set_log r (or_zero r.ttl) Status.server_error 0)
    pure (server_error (display e))
  set_result r ttl elapsed = do
    increment backend_ex
    increment backend_ex_timeout
    increment (ex Method.set)
    increment session_send
    klog (set_log r (or_zero r.ttl) Status.timeout 0)
    pure (server_error (codes "backend timeout"))

  set_checked : SetRequest → Bytes → Action Response
  unfolding set_result service on_memory
  set_checked r [] = do
    increment (ex Method.set)
    pure (client_error (codes "empty values not supported"))
  set_checked r (_ ∷ _) = do
    on_memory (λ m. Cache.set m now r.key (cached_value flags r))
    increment backend_request
    let ttl = Option.map at_least_one r.ttl
    outcome ← call (service (client.set_ttl cache_name r.key (encode_value flags r) ttl))
    set_result r ttl outcome

  unfoldable pub run_set : SetRequest → Action Response
  unfolding set_checked
  run_set r = do increment (calls Method.set); set_checked r r.value

  pub is_error : Response → Bool
  is_error (server_error _) = true
  is_error (client_error _) = true
  is_error (error _) = true
  is_error _ = false

  record_response :
      Result (ProxyError MomentoError) Response × Context (Shared State M)
      → Result (ProxyError MomentoError) Response × Context (Shared State M)
  unfolding is_error
  record_response (ok r, c) =
      (ok r, (observe {E = MomentoError} (if is_error r then complete_error else complete_ok) c).1)
  record_response (err e, c) = (err e, (observe {E = MomentoError} complete_error c).1)
  record_response (panicked, c) = (panicked, c)

  -- `with_wrapped_error_response_rpc_call_guard`, and the drop of the guard.
  guarded : Endpoint → Action Response → Action Response
  unfolding record_response drop_clone
  guarded rpc fut c = drop_clone (record_response (fut (record c { recorder = begin_shared rpc })))

  -- What is sent to the writer for a request: a response, or an error that ends the connection.
  unfoldable pub handle_memcache_request : Request → Action Response
  unfolding guarded run_delete run_get_keys run_set on_memory
  handle_memcache_request (delete key noreply) = do
    on_memory (λ m. Cache.delete m now key)
    guarded memcached_delete (run_delete key noreply)
  handle_memcache_request (get keys) = guarded memcached_get (run_get_keys keys)
  handle_memcache_request (set r) = guarded memcached_set (run_set r)
  handle_memcache_request (other _) = guarded memcached_unimplemented (raise (io "unsupported"))
