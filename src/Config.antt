-- ===== src/Config.antt =====
-- src/momento_proxy.rs: the configuration, and its defaults and conversions.
pub mod Bounds
use momento_proxy.Base.{
  ℕ, zero, suc, ◌+◌, ◌*◌, ◌/◌, ◌%◌, Bool, true, false, Option, none, some, List, [], ◌∷◌, ◌++◌,
  Bytes, codes, ltb, if◌then◌else◌,
}

-- `PAGESIZE`, `INITIAL_BUFFER_SIZE` and `DEFAULT_TTL` of src/main.rs
abbrev pub page_size : ℕ
page_size = 4096

abbrev pub initial_buffer_size : ℕ
initial_buffer_size = 16 * 1024

abbrev pub default_client_ttl : ℕ
default_client_ttl = 3600

pub data Protocol : Type 0 where
  memcache resp : Protocol

-- A table of the file as the TOML library reads it: what is missing is `none`.
pub record CacheTable : Type 0 where
  pub host : Option Bytes
  pub port : Option Bytes
  pub cache_name : Option Bytes
  pub default_ttl : Option ℕ
  pub connection_count : Option ℕ
  pub protocol : Option Protocol
  pub flags : Option Bool
  pub memory_cache_bytes : Option ℕ
  pub memory_cache_ttl_seconds : Option ℕ
  pub buffer_size : Option ℕ

-- A `Cache`; times are in seconds.
pub record CacheConfig : Type 0 where
  pub host : Bytes
  pub port : Bytes
  pub cache_name : Bytes
  pub default_ttl : ℕ
  pub connection_count : ℕ
  pub protocol : Protocol
  pub flags : Bool
  pub memory_cache_bytes : ℕ
  pub memory_cache_ttl_seconds : ℕ
  pub buffer_size : ℕ

-- `#[serde(default)]`
abbrev or_default : {A : Type 0} → A → Option A → A
or_default a none = a
or_default a (some b) = b

-- `NonZeroU64` and `NonZeroUsize`
abbrev non_zero : ℕ → Option ℕ
non_zero zero = none
non_zero (suc n) = some (suc n)

infixl 10 ◌>>=◌
abbrev ◌>>=◌ : {A B : Type 0} → Option A → (A → Option B) → Option B
◌>>=◌ none f = none
◌>>=◌ (some a) f = f a

-- The derived `Deserialize` of `Cache`.
unfoldable pub cache_of : CacheTable → Option CacheConfig
cache_of t = do
  host ← t.host
  port ← t.port
  name ← t.cache_name
  given_ttl ← t.default_ttl
  ttl ← non_zero given_ttl
  connections ← non_zero (or_default 4 t.connection_count)
  size ← non_zero (or_default initial_buffer_size t.buffer_size)
  some (record {
    host = host;
    port = port;
    cache_name = name;
    default_ttl = ttl;
    connection_count = connections;
    protocol = or_default memcache t.protocol;
    flags = or_default true t.flags;
    memory_cache_bytes = or_default 0 t.memory_cache_bytes;
    memory_cache_ttl_seconds = or_default 0 t.memory_cache_ttl_seconds;
    buffer_size = size;
  })

unfoldable pub caches_of : List CacheTable → Option (List CacheConfig)
caches_of [] = some []
caches_of (t ∷ ts) = do c ← cache_of t; cs ← caches_of ts; some (c ∷ cs)

-- `format!("{}:{}", self.host(), self.port())`
unfoldable pub listen_address : CacheConfig → Bytes
listen_address c = c.host ++ codes ":" ++ c.port

-- `usize::div_ceil`
unfoldable pub div_ceil : ℕ → ℕ → ℕ
div_ceil a b = if ltb 0 (a % b) then a / b + 1 else a / b

-- `Cache::buffer_size`
unfoldable pub buffer_size : CacheConfig → ℕ
unfolding div_ceil
buffer_size c = div_ceil (if ltb c.buffer_size 1 then 1 else c.buffer_size) page_size
