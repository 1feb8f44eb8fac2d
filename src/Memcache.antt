-- ===== src/Memcache.antt =====
-- src/protocol/memcache and `handle_memcache_request` of src/frontend.rs: get, set and delete, with the
-- in-memory cache in front of the service.
pub mod Flags
pub mod Handlers
use momento_proxy.Base.{
  ℕ, ◌+◌, ◌-◌, ◌*◌, ◌/◌, ◌%◌, ◌^◌, ◌≡◌, refl, Bool, true, false, ◌&&◌, Option, none, some, List, [],
  ◌∷◌, ◌++◌, map, Bytes, String, codes, length, drop, ltb, if◌then◌else◌,
}
use momento_proxy.Base.Int.{ℤ, pos, negsuc}
use momento_proxy.Cache.{Moka, MCache, Value}

-- `protocol_memcache::Response`, as far as the handlers build it; the flag of `stored`, `deleted` and
-- `not_found` is `noreply`.
pub data Response : Type 0 where
  values : List Value → Response
  not_found stored_reply deleted_reply : Bool → Response
  client_error server_error error : Bytes → Response

pub record SetRequest : Type 0 where
  pub key : Bytes
  pub value : Bytes
  pub flags : ℕ
  pub ttl : Option ℤ
  pub noreply : Bool

-- `protocol_memcache::Request`
pub data Request : Type 0 where
  get : List Bytes → Request
  set : SetRequest → Request
  delete : Bytes → Bool → Request
  other : String → Request

-- `flags.to_be_bytes()` and `u32::from_be_bytes(..)`
unfoldable pub to_be_bytes : ℕ → Bytes
to_be_bytes n = n / 2 ^ 24 % 256 ∷ n / 2 ^ 16 % 256 ∷ n / 2 ^ 8 % 256 ∷ n % 256 ∷ []

unfoldable pub from_be_bytes : ℕ → ℕ → ℕ → ℕ → ℕ
from_be_bytes a b c d = a * 2 ^ 24 + b * 2 ^ 16 + c * 2 ^ 8 + d

-- `ttl.max(1) as u64`
unfoldable pub at_least_one : ℤ → ℕ
at_least_one (pos n) = if ltb n 1 then 1 else n
at_least_one (negsuc n) = 1

-- What a stored value stands for: `none` is a miss, where the flags do not fit.
unfoldable pub decode_value : Bool → Bytes → Bytes → Option Value
unfolding from_be_bytes
decode_value false key value = some (record { key = key; flags = 0; content = value })
decode_value true key (a ∷ b ∷ c ∷ d ∷ e ∷ rest) =
    some (record { key = key; flags = from_be_bytes a b c d; content = e ∷ rest })
decode_value true key _ = none

-- The value that `set` sends to the service.
unfoldable pub encode_value : Bool → SetRequest → Bytes
unfolding to_be_bytes
encode_value true r = to_be_bytes r.flags ++ r.value
encode_value false r = r.value

-- The value that `set` puts into the in-memory cache.
unfoldable pub cached_value : Bool → SetRequest → Value
cached_value flags r = record {
  key = r.key;
  flags = if flags then r.flags else 0;
  content = r.value;
}

-- The service and, if it is configured, the in-memory cache.
abbrev pub Shared : Type 0 → Moka → Type 0
Shared S M = S × Option (MCache M)
