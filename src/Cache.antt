-- ===== src/Cache.antt =====
-- src/cache.rs: the in-memory cache in front of the service. The store below it is the `moka` library's
-- `Cache`, a parameter; instants and durations are numbers of seconds.
use momento_proxy.Base.{
  ℕ, ◌+◌, ◌*◌, ◌-◌, ◌%◌, ◌^◌, ◌≡◌, ◌≢◌, ◌⊎◌, Option, none, some, Bytes, length, ltb, if◌then◌else◌,
}

-- `protocol_memcache::Value::new(key, flags, None, data)`
pub record Value : Type 0 where
  pub key : Bytes
  pub flags : ℕ
  pub content : Bytes

-- `CacheValue` has the one constructor `Memcached { value }`.
pub record CacheEntry : Type 0 where
  pub value : Value
  pub expire_at : ℕ

-- `moka::sync::Cache`: at an instant, a key may be there or not, since entries expire and are evicted.
pub record Moka : Type 1 where
  pub State : Type 0
  pub get : State → ℕ → Bytes → Option CacheEntry
  pub insert : State → ℕ → Bytes → CacheEntry → State
  pub remove : State → ℕ → Bytes → State

-- What the library documents: a lookup finds what was inserted last or nothing, and nothing after a
-- removal; other keys are not touched, but may be evicted.
pub record IsLawful (M : Moka) : Type 0 where
  pub get-insert_self :
      (s : M.State) (t u : ℕ) (k : Bytes) (e : CacheEntry)
      → (M.get (M.insert s t k e) u k ≡ none) ⊎ (M.get (M.insert s t k e) u k ≡ some e)
  pub get-insert_ne :
      (s : M.State) (t u : ℕ) (k j : Bytes) (e : CacheEntry)
      → k ≢ j
      → (M.get (M.insert s t k e) u j ≡ none) ⊎ (M.get (M.insert s t k e) u j ≡ M.get s u j)
  pub get-remove_self : (s : M.State) (t u : ℕ) (k : Bytes) → M.get (M.remove s t k) u k ≡ none
  pub get-remove_ne :
      (s : M.State) (t u : ℕ) (k j : Bytes)
      → k ≢ j
      → (M.get (M.remove s t k) u j ≡ none) ⊎ (M.get (M.remove s t k) u j ≡ M.get s u j)

pub record MCache (M : Moka) : Type 0 where
  pub cache : M.State
  pub ttl : ℕ

abbrev max_ttl : ℕ
max_ttl = 5 * 365 * 24 * 3600

-- `std::cmp::min(ttl, ..)` of `MCache::new`, for a requested TTL in seconds.
unfoldable pub capped_ttl : ℕ → ℕ
capped_ttl ttl = if ltb max_ttl ttl then max_ttl else ttl

-- `weigh`, where `value_size` is the size of the value's type.
unfoldable pub weigh : ℕ → Bytes → CacheEntry → ℕ
weigh value_size key e = (length key + length e.value.content + value_size) % 2 ^ 32

-- `expire_after_create` and `expire_after_update`
unfoldable pub time_to_expiry : CacheEntry → ℕ → ℕ
time_to_expiry e now = e.expire_at - now

module _ {M : Moka} where
  unfoldable pub new : M.State → ℕ → MCache M
  unfolding capped_ttl
  new empty ttl = record { cache = empty; ttl = capped_ttl ttl }

  unfoldable pub get : MCache M → ℕ → Bytes → Option CacheEntry
  get m now key = M.get m.cache now key

  unfoldable pub set : MCache M → ℕ → Bytes → Value → MCache M
  set m now key value = record m {
    cache = M.insert m.cache now key (record { value = value; expire_at = now + m.ttl });
  }

  unfoldable pub delete : MCache M → ℕ → Bytes → MCache M
  delete m now key = record m { cache = M.remove m.cache now key }
