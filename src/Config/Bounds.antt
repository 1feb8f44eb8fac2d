-- ===== src/Config/Bounds.antt =====
-- The range of what a configuration holds, and of the buffer size that is used.
use momento_proxy.Base.{
  refl, ap, ℕ, zero, suc, ◌+◌, ◌*◌, ◌≤◌, ◌<◌, ◌≡◌, subst, Option, none, some, arith,
}
use momento_proxy.Config.{
  CacheTable, CacheConfig, or_default, ◌>>=◌, non_zero, initial_buffer_size, cache_of, div_ceil,
  buffer_size,
}

-- The size that is used is the number of pages of the configured one.
buffer_size-pages :
    (c : CacheConfig)
    → 1 ≤ c.buffer_size
    → (c.buffer_size ≤ buffer_size c * 4096)
      × (buffer_size c * 4096 < c.buffer_size + 4096)
      × (1 ≤ buffer_size c)
      × (1 < c.buffer_size → buffer_size c < c.buffer_size)
unfolding buffer_size div_ceil
buffer_size-pages c h = (ground arith, ground arith, ground arith, λ k. ground arith)

NonZero : CacheConfig → Type 0
NonZero c = (1 ≤ c.default_ttl) × (1 ≤ c.connection_count) × (1 ≤ c.buffer_size)

non_zero_lem : (n m : ℕ) → non_zero n ≡ some m → 1 ≤ m
non_zero_lem zero m h = cc
non_zero_lem (suc n) m h = let e : suc n ≡ m = cc in omega (arith, e)

-- A chain that gives a result has given one in its first step.
first_step :
    {A B : Type 0}
    → (o : Option A) (f : A → Option B) (b : B) → (o >>= f) ≡ some b
    → (a : A) × (o ≡ some a) × (f a ≡ some b)
first_step none f b h = cc
first_step (some a) f b h = (a, refl, h)

cache_of-NonZero : (t : CacheTable) (c : CacheConfig) → cache_of t ≡ some c → NonZero c
unfolding cache_of NonZero
cache_of-NonZero t c h =
    let (host, _, h1) = first_step t.host _ c h in
    let (port, _, h2) = first_step t.port _ c h1 in
    let (name, _, h3) = first_step t.cache_name _ c h2 in
    let (given, _, h4) = first_step t.default_ttl _ c h3 in
    let (ttl, p, h5) = first_step (non_zero given) _ c h4 in
    let (n, q, h6) = first_step (non_zero (or_default 4 t.connection_count)) _ c h5 in
    let (size, r, h7) =
      first_step (non_zero (or_default initial_buffer_size t.buffer_size)) _ c h6 in
    let last = ap (or_default c) h7 in
    (
      subst (λ d. 1 ≤ d.default_ttl) last (non_zero_lem given ttl p),
      subst (λ d. 1 ≤ d.connection_count) last (non_zero_lem (or_default 4 t.connection_count) n q),
      subst (λ d. 1 ≤ d.buffer_size) last
          (non_zero_lem (or_default initial_buffer_size t.buffer_size) size r),
    )

-- For a cache that is read from a file: neither its TTL nor its number of connections is 0, and the
-- buffer size that is used is the number of pages of the configured one. That many pages hold the
-- configured size, and one page less does not. It is not 0, and less than the configured size unless that
-- is 1.
pub cache_of-bounds :
    (t : CacheTable) (c : CacheConfig)
    → cache_of t ≡ some c
    → (1 ≤ c.default_ttl)
      × (1 ≤ c.connection_count)
      × (c.buffer_size ≤ buffer_size c * 4096)
      × (buffer_size c * 4096 < c.buffer_size + 4096)
      × (1 ≤ buffer_size c)
      × (1 < c.buffer_size → buffer_size c < c.buffer_size)
unfolding NonZero
cache_of-bounds t c h =
    let (p, q, r) = cache_of-NonZero t c h in
    let (u, v, w, x) = buffer_size-pages c r in (p, q, u, v, w, x)
