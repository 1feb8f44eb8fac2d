-- ===== src/Examples/Start.antt =====
-- The start of a machine with one configured cache.
use mathlib.Core.List.{Perm}
use package.text.Mathlib.Text.{◌==◌ as str_eq}
use momento_proxy.Metrics.Listing.{Metric, counter, histogram, listing}
use momento_proxy.Metrics.Listing.Sorted.{Ascends}
use momento_proxy.Metrics.Export.{
  Environment, Otlp, Task, observe_connections, builder, build, export_tasks,
  get_base_environment_dimensions,
}
use momento_proxy.Metrics.Export.Configured.{exporting, build_lem}
use momento_proxy.Examples.Service.{eq_bytes_ne}
use momento_proxy.Base.{
  ◌≢◌, not, eq_bytes, ℕ, ◌+◌, ◌*◌, ◌≤◌, ◌<◌, ◌≡◌, refl, ◌⊎◌, Bool, Option, concat_map,
  if◌then◌else◌, true, false, none, some, List, [], ◌∷◌, ◌++◌, Bytes, codes, arith,
}
use momento_proxy.Base.Exec.{ok, panicked}
use momento_proxy.Cache.{capped_ttl}
use momento_proxy.Config.{
  CacheTable, CacheConfig, memcache, cache_of, caches_of, buffer_size, listen_address,
}
use momento_proxy.Config.Bounds.{cache_of-bounds}
use momento_proxy.Startup.{
  Machine, LocalCache, local_cache, kept_ttl, serving, listed, Failure, serve, served_or_listed,
  Served, ttl_micros, load, validate, service_of, listen_all, spawn, main,
}
use momento_proxy.Startup.Serves.{AllValid, Ports, validate-exact}
use momento_proxy.Startup.Main.{
  in_column, lines_of, local_cache-bounds, Configured, main_serves, main_lists,
}

abbrev table : CacheTable
table = record {
  host = some (codes "127.0.0.1");
  port = some (codes "11211");
  cache_name = some (codes "c");
  default_ttl = some 60;
  connection_count = none;
  protocol = none;
  flags = none;
  memory_cache_bytes = some 1024;
  memory_cache_ttl_seconds = none;
  buffer_size = none;
}

abbrev cache : CacheConfig
cache = record {
  host = codes "127.0.0.1";
  port = codes "11211";
  cache_name = codes "c";
  default_ttl = 60;
  connection_count = 4;
  protocol = memcache;
  flags = true;
  memory_cache_bytes = 1024;
  memory_cache_ttl_seconds = 0;
  buffer_size = 16384;
}

-- The service has a key, and the metrics have an endpoint and a token.
abbrev environment : Environment
environment v =
    if str_eq v "MOMENTO_API_KEY"
    then some (codes "key")
    else if str_eq v "OTLP_ENDPOINT"
    then some (codes "https://otlp")
    else if str_eq v "OTLP_API_TOKEN"
    then some (codes "token")
    else none

abbrev otlp : Otlp
otlp = record {
  Channel = Bytes;
  MetadataValue = Bytes;
  get_client = λ e. some e;
  metadata_value = λ t. some t;
}

abbrev counts : Metric
counts = record { name = codes "get"; kind = counter }

abbrev latencies : Metric
latencies = record { name = codes "age"; kind = histogram }

-- Whether an address is among those that are bound.
abbrev is_bound : Bytes → List Bytes → Bool
is_bound a [] = false
is_bound a (b ∷ bs) = if eq_bytes b a then true else is_bound a bs

-- The file is there, an address can be bound once, and any address can be read.
abbrev machine : Machine
machine = record {
  State = List Bytes;
  Address = Bytes;
  Admin = ℕ;
  Credentials = Bytes;
  no_admin = 0;
  read_file = λ s. some (codes "file");
  parse_toml = λ b. some (record { admin = 9999; threads = none; cache = table ∷ [] });
  parse_address = λ b. some b;
  admin_address = λ a. some (codes "0.0.0.0:9999");
  credentials = λ k. some k;
  environment = environment;
  otlp = otlp;
  metrics = counts ∷ latencies ∷ [];
  launch = λ threads s. (true, s);
  bind = λ a s. (not (is_bound a s), a ∷ s);
  set_nonblocking = λ a s. (true, s);
}

cache_of-bounds_example :
    (1 ≤ cache.default_ttl)
    × (1 ≤ cache.connection_count)
    × (cache.buffer_size ≤ buffer_size cache * 4096)
    × (buffer_size cache * 4096 < cache.buffer_size + 4096)
    × (1 ≤ buffer_size cache)
    × (1 < cache.buffer_size → buffer_size cache < cache.buffer_size)
unfolding cache_of
cache_of-bounds_example = cache_of-bounds table cache refl

cache-AllValid : AllValid machine (cache ∷ [])
cache-AllValid = ((omega arith, (_, refl)), tt)

validate-exact_example :
    ((validate machine (cache ∷ []) []).0 ≡ ok tt → AllValid machine (cache ∷ []))
    × (AllValid machine (cache ∷ []) → validate machine (cache ∷ []) [] ≡ (ok tt, []))
validate-exact_example = validate-exact machine (cache ∷ []) []

bind_other :
    (a b : Bytes) (s : List Bytes) → is_bound b s ≡ false → a ≢ b → is_bound b (a ∷ s) ≡ false
bind_other a b s h n = rw (eq_bytes_ne a b n) h

abbrev machine_ports : Ports machine
machine_ports = record {
  IsFree = λ s a. is_bound a s ≡ false;
  bind_free = λ a s h. rw h refl;
  bind_other = bind_other;
  nonblocking = λ a s. refl;
  nonblocking_free = λ a b s h. h;
}

abbrev listener : Served machine
listener = record {
  address = codes "127.0.0.1:11211";
  credentials = codes "key";
  client_ttl = 3600;
  connections = 4;
  cache_name = codes "c";
  protocol = memcache;
  flags = true;
  local_cache = some (record { max_bytes = 1024; ttl = 157680000 });
  buffer_size = 4;
}

-- The metrics go to the endpoint, under dimensions that the environment does not know.
abbrev exports : List (Task otlp)
exports =
    exporting otlp builder environment (codes "https://otlp") (codes "token")
    ++ observe_connections 1 ∷ []

listener-served : (main machine true false []).0 ≡ ok (serving exports (listener ∷ []))
unfolding eq_bytes main load validate spawn listen_all service_of local_cache kept_ttl capped_ttl
    ttl_micros caches_of cache_of listen_address buffer_size served_or_listed serve build
    export_tasks get_base_environment_dimensions
listener-served = refl

main_serves_example :
    (admin : ℕ) × (threads : Option ℕ) × (cs : List CacheConfig) × ((load machine []).0
      ≡ ok (admin, threads, cs))
    × Configured machine exports (listener ∷ []) admin cs
main_serves_example = main_serves machine true false [] exports (listener ∷ []) listener-served

listed-printed : (main machine true true []).0 ≡ ok (listed (listing (counts ∷ latencies ∷ [])))
unfolding main load validate ttl_micros caches_of cache_of listen_address served_or_listed
listed-printed = refl

main_lists_example :
    (◌≡◌ {A = Bool} true true)
    × ((rest : List Bytes) × (listing (counts ∷ latencies ∷ [])
          ≡ (in_column 31 (codes "NAME")
              ++ codes " "
              ++ in_column 15 (codes "TYPE")
              ++ codes " DESCRIPTION")
            ∷ rest)
        × Ascends rest
        × Perm rest (concat_map lines_of (counts ∷ latencies ∷ [])))
main_lists_example =
    main_lists machine true true [] (listing (counts ∷ latencies ∷ [])) listed-printed

build_lem_example :
    ((environment "OTLP_ENDPOINT" ≡ none) ⊎ (environment "OTLP_API_TOKEN" ≡ none)
      → build {E = Failure} {S = ℕ} otlp builder environment 0
        ≡ (ok (observe_connections 1 ∷ []), 0))
    × ((endpoint api_token : Bytes)
        → environment "OTLP_ENDPOINT" ≡ some endpoint
        → environment "OTLP_API_TOKEN" ≡ some api_token
        → ((channel value : Bytes)
            → otlp.get_client endpoint ≡ some channel
            → otlp.metadata_value api_token ≡ some value
            → build {E = Failure} {S = ℕ} otlp builder environment 0 ≡ (
              ok (exporting otlp builder environment channel value ++ observe_connections 1 ∷ []),
              0,
            ))
          × ((otlp.get_client endpoint ≡ none) ⊎ (otlp.metadata_value api_token ≡ none)
              → build {E = Failure} {S = ℕ} otlp builder environment 0 ≡ (panicked, 0)))
build_lem_example = build_lem otlp builder environment 0

local_cache-bounds_example :
    (cache.memory_cache_bytes ≡ 0 → local_cache cache ≡ none)
    × (1 ≤ cache.memory_cache_bytes
        → (m : LocalCache) × (local_cache cache ≡ some m)
          × (m.max_bytes ≡ cache.memory_cache_bytes)
          × (1 ≤ m.ttl)
          × (m.ttl ≤ 157680000)
          × (cache.memory_cache_ttl_seconds ≡ 0 → m.ttl ≡ 157680000)
          × (1 ≤ cache.memory_cache_ttl_seconds → m.ttl ≤ cache.memory_cache_ttl_seconds))
local_cache-bounds_example = local_cache-bounds cache
