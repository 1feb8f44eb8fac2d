-- ===== src/Startup.antt =====
-- The start of the proxy: `main` and `spawn` of src/main.rs and `MomentoProxyConfig::load` of
-- src/momento_proxy.rs.
pub mod Serves
pub mod Main
use momento_proxy.Base.{
  ℕ, ◌+◌, ◌-◌, ◌*◌, ◌/◌, ◌^◌, Bool, true, false, Option, none, some, List, [], ◌∷◌, Bytes, ltb, leb,
  if◌then◌else◌,
}
use momento_proxy.Base.Exec.{Exec, pure, raise, panic, ◌>>=◌, ◌>>◌}
use momento_proxy.Cache.{capped_ttl}
use momento_proxy.Metrics.Listing.{Metric, listing}
use momento_proxy.Metrics.Export.{Environment, Otlp, Task, builder, build}
use momento_proxy.Config.{
  Protocol, CacheTable, CacheConfig, caches_of, listen_address, buffer_size, default_client_ttl,
}

-- The file as the TOML library reads it; `admin` is what the configuration library makes of its part.
pub record ConfigTable (Admin : Type 0) : Type 0 where
  pub admin : Admin
  pub threads : Option ℕ
  pub cache : List CacheTable

-- The machine and the libraries that the start uses. `parse_address` is the standard library's parser of
-- a socket address, `metrics` what the metrics library has registered, `launch` the building of a runtime,
-- which may be told how many threads it has. `launch`, `bind` and `set_nonblocking` tell whether they succeed.
pub record Machine : Type 1 where
  pub State : Type 0
  pub Address : Type 0
  pub Admin : Type 0
  pub Credentials : Type 0
  pub no_admin : Admin
  pub read_file : State → Option Bytes
  pub parse_toml : Bytes → Option (ConfigTable Admin)
  pub parse_address : Bytes → Option Address
  pub admin_address : Admin → Option Address
  pub credentials : Bytes → Option Credentials
  pub environment : Environment
  pub otlp : Otlp
  pub metrics : List Metric
  pub launch : Option ℕ → State → Bool × State
  pub bind : Address → State → Bool × State
  pub set_nonblocking : Address → State → Bool × State

-- What ends the start; the last four are of the cache with that name.
pub data Failure : Type 0 where
  unreadable_config malformed_config : Failure
  admin_not_bound no_api_key bad_credentials no_caches : Failure
  long_ttl : Bytes → ℕ → ℕ → Failure
  bad_address not_nonblocking not_bound : Bytes → Failure

-- The arguments of `MCache::new`, the TTL as it is kept.
pub record LocalCache : Type 0 where
  pub max_bytes : ℕ
  pub ttl : ℕ

-- A listener: what `listener::listener` is called with.
pub record Service (Address Credentials : Type 0) : Type 0 where
  pub address : Address
  pub credentials : Credentials
  pub client_ttl : ℕ
  pub connections : ℕ
  pub cache_name : Bytes
  pub protocol : Protocol
  pub flags : Bool
  pub local_cache : Option LocalCache
  pub buffer_size : ℕ

-- `Duration::MAX`, in seconds
abbrev longest : ℕ
longest = 2 ^ 64 - 1

-- The TTL that `MCache::new` is given, as it keeps it.
unfoldable pub kept_ttl : CacheConfig → ℕ
kept_ttl c =
    capped_ttl (if leb c.memory_cache_ttl_seconds 0 then longest else c.memory_cache_ttl_seconds)

unfoldable pub local_cache : CacheConfig → Option LocalCache
unfolding kept_ttl
local_cache c =
    if ltb 0 c.memory_cache_bytes
    then some (record { max_bytes = c.memory_cache_bytes; ttl = kept_ttl c })
    else none

-- `cache.default_ttl().as_micros().try_into().unwrap_or(u64::MAX)`
unfoldable pub ttl_micros : CacheConfig → ℕ
ttl_micros c =
    if ltb (c.default_ttl * 1000000) (2 ^ 64) then c.default_ttl * 1000000 else 2 ^ 64 - 1

-- `u64::MAX / 1000`
abbrev pub ttl_limit : ℕ
ttl_limit = (2 ^ 64 - 1) / 1000

-- `main` ends after it has printed the list of the metrics, or serves, with the tasks for its metrics.
pub data Started (T S : Type 0) : Type 0 where
  listed : List Bytes → Started T S
  serving : List T → List S → Started T S

module _ (M : Machine) where
  abbrev pub Start : Type 0 → Type 0
  Start A = Exec Failure M.State A

  abbrev pub Served : Type 0
  Served = Service M.Address M.Credentials

  -- `Cache::socket_addr`
  abbrev pub socket_addr : CacheConfig → Option M.Address
  socket_addr c = M.parse_address (listen_address c)

  abbrev or_raise : {A : Type 0} → Failure → Option A → Start A
  or_raise f none = raise f
  or_raise f (some a) = pure a

  abbrev refuse : Failure → Bool → Start (Unit {0})
  refuse f bad = if bad then raise f else pure tt

  -- A call of the machine that may fail.
  abbrev check : Failure → (M.State → Bool × M.State) → Start (Unit {0})
  check f call s = let (ok, s') = call s in (if ok then pure tt else raise f) s'

  -- `MomentoProxyConfig::load`: what it keeps of the file that a start uses.
  unfoldable pub load : Start (M.Admin × Option ℕ × List CacheConfig)
  load = do
    content ← λ s. or_raise unreadable_config (M.read_file s) s
    table ← or_raise malformed_config (M.parse_toml content)
    caches ← or_raise malformed_config (caches_of table.cache)
    pure (table.admin, table.threads, caches)

  -- The checks of `main`.
  unfoldable pub validate : List CacheConfig → Start (Unit {0})
  unfolding ttl_micros
  validate [] = pure tt
  validate (c ∷ cs) = do
    refuse (long_ttl c.cache_name (ttl_micros c) ttl_limit) (ltb ttl_limit (ttl_micros c))
    or_raise (bad_address c.cache_name) (socket_addr c)
    validate cs

  -- What a listener is started with.
  unfoldable pub service_of : M.Credentials → CacheConfig → M.Address → Served
  unfolding local_cache
  service_of k c a = record {
    address = a;
    credentials = k;
    client_ttl = default_client_ttl;
    connections = c.connection_count;
    cache_name = c.cache_name;
    protocol = c.protocol;
    flags = c.flags;
    local_cache = local_cache c;
    buffer_size = buffer_size c;
  }

  -- The loop of `spawn` over the caches.
  unfoldable pub listen_all : M.Credentials → List CacheConfig → Start (List Served)
  unfolding service_of
  listen_all k [] = pure []
  listen_all k (c ∷ cs) = do
    a ← or_raise (bad_address c.cache_name) (socket_addr c)
    check (not_bound c.cache_name) (M.bind a)
    check (not_nonblocking c.cache_name) (M.set_nonblocking a)
    services ← listen_all k cs
    pure (service_of k c a ∷ services)

  abbrev listen_some : M.Credentials → List CacheConfig → Start (List Served)
  listen_some k [] = raise no_caches
  listen_some k (c ∷ cs) = listen_all k (c ∷ cs)

  -- `expect`
  abbrev or_panic : {A : Type 0} → Option A → Start A
  or_panic none = panic
  or_panic (some a) = pure a

  -- `spawn`, up to the admin server.
  unfoldable pub spawn : M.Admin → List CacheConfig → Start (List Served)
  spawn admin caches = do
    a ← or_panic (M.admin_address admin)
    check admin_not_bound (M.bind a)
    key ← or_raise no_api_key (M.environment "MOMENTO_API_KEY")
    k ← or_raise bad_credentials (M.credentials key)
    listen_some k caches

  -- `build().expect(..)` of a runtime.
  abbrev launched : Option ℕ → Start (Unit {0})
  launched threads s = let (ok, s') = M.launch threads s in (if ok then pure tt else panic) s'

  abbrev pub MainResult : Type 0
  MainResult = Started (Task M.otlp) Served

  -- `main` behind the list of the metrics.
  unfoldable pub serve : M.Admin → Option ℕ → List CacheConfig → Start MainResult
  serve admin threads caches = do
    launched (some 1)
    launched threads
    tasks ← build M.otlp builder M.environment
    services ← spawn admin caches
    pure (serving tasks services)

  -- What `main` does once the configuration is checked.
  unfoldable pub served_or_listed : Bool → M.Admin → Option ℕ → List CacheConfig → Start MainResult
  unfolding serve
  served_or_listed true admin threads caches = pure (listed (listing M.metrics))
  served_or_listed false admin threads caches = serve admin threads caches

  -- `main`, whose arguments may name a file and ask for the list of the metrics.
  unfoldable pub main : Bool → Bool → Start MainResult
  unfolding served_or_listed
  main file stats = do
    (admin, threads, caches) ← if file then load else pure (M.no_admin, none, [])
    validate caches
    served_or_listed stats admin threads caches
