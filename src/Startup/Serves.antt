-- ===== src/Startup/Serves.antt =====
-- When the start succeeds, and what it then serves.
use momento_proxy.Base.{
  ◌≤◌, ◌≡◌, ◌≢◌, refl, ap, ◌∙◌, subst, Bool, true, false, Option, none, some, List, [], ◌∷◌, ltb,
  arith,
}
use momento_proxy.Base.Exec.{Result, ok, err, panicked, continue, ◌>>=◌, ◌>>◌}
use momento_proxy.Config.{CacheConfig, buffer_size}
use momento_proxy.Startup.{
  Machine, Failure, not_nonblocking, not_bound, Start, Served, ttl_micros, ttl_limit, refuse,
  or_raise, check, socket_addr, validate, service_of, listen_all, listen_some, or_panic,
  local_cache, spawn, admin_not_bound, no_api_key, bad_credentials,
}

module _ (M : Machine) where
  -- A cache that can be listened for: its TTL is no longer than 18446744073 seconds and its address can
  -- be read.
  abbrev pub Valid : CacheConfig → Type 0
  Valid c = (c.default_ttl ≤ 18446744073) × ((a : M.Address) × (socket_addr M c ≡ some a))

  abbrev pub AllValid : List CacheConfig → Type 0
  AllValid [] = Unit
  AllValid (c ∷ cs) = Valid c × AllValid cs

  short_ttl : (c : CacheConfig) → ltb ttl_limit (ttl_micros c) ≡ false → c.default_ttl ≤ 18446744073
  unfolding ttl_micros
  short_ttl c h = ground arith

  short_micros :
      (c : CacheConfig) → c.default_ttl ≤ 18446744073 → ltb ttl_limit (ttl_micros c) ≡ false
  unfolding ttl_micros
  short_micros c h = ground arith

  -- The body of the loop of the checks, and what follows it.
  abbrev checked :
      {B : Type 0} → Failure → Failure → Bool → Option M.Address → Start M B → Start M B
  checked f g b o next = refuse M f b >> (or_raise M g o >> next)

  checked_ok :
      (f g : Failure) (b : Bool) (o : Option M.Address) (next : Start M (Unit {0})) (s : M.State)
      → (checked f g b o next s).0 ≡ ok tt
      → (b ≡ false) × ((a : M.Address) × (o ≡ some a)) × ((next s).0 ≡ ok tt)
  checked_ok f g true o next s h = cc
  checked_ok f g false none next s h = cc
  checked_ok f g false (some a) next s h = (refl, (a, refl), h)

  ok_checked :
      (f g : Failure) (b : Bool) (o : Option M.Address) (next : Start M (Unit {0})) (s : M.State)
      (a : M.Address)
      → b ≡ false
      → o ≡ some a
      → checked f g b o next s ≡ next s
  ok_checked f g true o next s a h k = cc
  ok_checked f g false none next s a h k = cc
  ok_checked f g false (some b) next s a h k = refl

  -- The checks of the configuration pass exactly if no cache has a TTL of more than 18446744073 seconds
  -- and the address of each can be read; and they leave the machine as it is.
  pub validate-exact :
      (cs : List CacheConfig) (s : M.State)
      → ((validate M cs s).0 ≡ ok tt → AllValid cs) × (AllValid cs → validate M cs s ≡ (ok tt, s))
  unfolding validate
  validate-exact [] s = (λ h. tt, λ h. refl)
  validate-exact (c ∷ cs) s =
      let (to, from) = validate-exact cs s in
      (
        λ h.
            let (p, q, r) =
              checked_ok _ _ (ltb ttl_limit (ttl_micros c)) (socket_addr M c) (validate M cs) s h in
            ((short_ttl c p, q), to r),
        λ ((l, (a, e)), vs).
            ok_checked _ _ (ltb ttl_limit (ttl_micros c)) (socket_addr M c) (validate M cs) s a
              (short_micros c l) e
            ∙ from vs,
      )

  -- What a listener is to be started with. The local cache is as `local_cache-bounds` of Startup/Main says, the
  -- buffer size as `cache_of-bounds` of Config/Bounds does.
  abbrev pub Wanted : M.Credentials → CacheConfig → M.Address → Served M → Type 0
  Wanted k c a v =
      (v.address ≡ a)
      × (v.credentials ≡ k)
      × (v.client_ttl ≡ 3600)
      × (v.connections ≡ c.connection_count)
      × (v.cache_name ≡ c.cache_name)
      × (v.protocol ≡ c.protocol)
      × (v.flags ≡ c.flags)
      × (v.local_cache ≡ local_cache c)
      × (v.buffer_size ≡ buffer_size c)

  -- The services of the caches, in their order.
  abbrev pub Describes : M.Credentials → List CacheConfig → List (Served M) → Type 0
  Describes k [] [] = Unit
  Describes k [] (v ∷ vs) = ⊥
  Describes k (c ∷ cs) [] = ⊥
  Describes k (c ∷ cs) (v ∷ vs) =
      ((a : M.Address) × (socket_addr M c ≡ some a) × Wanted k c a v) × Describes k cs vs

  -- The value of a result.
  abbrev value_or : {A : Type 0} → A → Result Failure A → A
  value_or a (ok b) = b
  value_or a (err e) = a
  value_or a panicked = a

  -- A chain that succeeds has succeeded in its first step.
  first_ok :
      {A B : Type 0}
      → (r : Result Failure A) (t : M.State) (f : A → Start M B) (b : B) → (continue r f t).0 ≡ ok b
      → (a : A) × (r ≡ ok a) × ((f a t).0 ≡ ok b)
  first_ok (ok a) t f b h = (a, refl, h)
  first_ok (err e) t f b h = cc
  first_ok panicked t f b h = cc

  pub step_ok :
      {A B : Type 0}
      → (m : Start M A) (f : A → Start M B) (s : M.State) (b : B) → ((m >>= f) s).0 ≡ ok b
      → (a : A) × ((m s).0 ≡ ok a) × ((f a (m s).1).0 ≡ ok b)
  step_ok m f s b h = first_ok (m s).0 (m s).1 f b h

  raised_ok :
      {A B : Type 0}
      → (g : Failure) (o : Option A) (f : A → Start M B) (s : M.State) (b : B)
      → ((or_raise M g o >>= f) s).0 ≡ ok b
      → (a : A) × (o ≡ some a) × ((f a s).0 ≡ ok b)
  raised_ok g none f s b h = cc
  raised_ok g (some a) f s b h = (a, refl, h)

  listen_all-Describes :
      (k : M.Credentials) (cs : List CacheConfig) (s : M.State) (vs : List (Served M))
      → (listen_all M k cs s).0 ≡ ok vs
      → Describes k cs vs
  unfolding listen_all service_of
  listen_all-Describes k [] s [] h = tt
  listen_all-Describes k [] s (v ∷ vs) h = cc
  listen_all-Describes k (c ∷ cs) s vs h =
      let (a, e, h1) = raised_ok _ (socket_addr M c) _ s vs h in
      let (_, _, h2) = step_ok (check M (not_bound c.cache_name) (M.bind a)) _ _ vs h1 in
      let (_, _, h3) =
        step_ok (check M (not_nonblocking c.cache_name) (M.set_nonblocking a)) _ _ vs h2 in
      let (ws, e4, h4) = step_ok (listen_all M k cs) _ _ vs h3 in
      subst (Describes k (c ∷ cs)) (ap (value_or vs) h4) (
        (a, e, (refl, refl, refl, refl, refl, refl, refl, refl, refl)),
        listen_all-Describes k cs _ ws e4,
      )

  listen_some-Describes :
      (k : M.Credentials) (cs : List CacheConfig) (s : M.State) (vs : List (Served M))
      → (listen_some M k cs s).0 ≡ ok vs
      → (cs ≢ []) × Describes k cs vs
  listen_some-Describes k [] s vs h = cc
  listen_some-Describes k (c ∷ cs) s vs h = (λ e. cc, listen_all-Describes k (c ∷ cs) s vs h)

  -- Where the start of the listeners succeeds, there are caches, and there is one listener for each of
  -- them, in their order: at the address of the cache, with its name, protocol, flags and connections,
  -- the local cache and the buffer size that its configuration gives, and a client whose TTL is that of
  -- all clients.
  pub spawn-Describes :
      (admin : M.Admin) (cs : List CacheConfig) (s : M.State) (vs : List (Served M))
      → (spawn M admin cs s).0 ≡ ok vs
      → (cs ≢ []) × ((k : M.Credentials) × Describes k cs vs)
  unfolding spawn
  spawn-Describes admin cs s vs h =
      let (a, _, h1) = step_ok (or_panic M (M.admin_address admin)) _ s vs h in
      let (_, _, h2) = step_ok (check M admin_not_bound (M.bind a)) _ _ vs h1 in
      let (key, _, h3) =
        step_ok (or_raise M no_api_key (M.environment "MOMENTO_API_KEY")) _ _ vs h2 in
      let (k, _, h4) = step_ok (or_raise M bad_credentials (M.credentials key)) _ _ vs h3 in
      let (ne, d) = listen_some-Describes k cs _ vs h4 in (ne, (k, d))

  -- How the ports of a machine behave: a free address can be bound, which leaves the other ones free, and a bound
  -- socket can be told not to block.
  pub record Ports : Type 1 where
    pub IsFree : M.State → M.Address → Type 0
    pub bind_free : (a : M.Address) (s : M.State) → IsFree s a → (M.bind a s).0 ≡ true
    pub bind_other : (a b : M.Address) (s : M.State) → IsFree s b → a ≢ b → IsFree (M.bind a s).1 b
    pub nonblocking : (a : M.Address) (s : M.State) → (M.set_nonblocking a s).0 ≡ true
    pub nonblocking_free :
        (a b : M.Address) (s : M.State) → IsFree s b → IsFree (M.set_nonblocking a s).1 b

  abbrev pub AllFree : Ports → M.State → List M.Address → Type 0
  AllFree P s [] = Unit
  AllFree P s (a ∷ rest) = P.IsFree s a × AllFree P s rest

  abbrev pub NoneOf : M.Address → List M.Address → Type 0
  NoneOf a [] = Unit
  NoneOf a (b ∷ bs) = (a ≢ b) × NoneOf a bs

  -- No address comes up twice.
  abbrev pub Apart : List M.Address → Type 0
  Apart [] = Unit
  Apart (a ∷ rest) = NoneOf a rest × Apart rest

  -- The addresses of caches.
  abbrev pub Addresses : List CacheConfig → List M.Address → Type 0
  Addresses [] [] = Unit
  Addresses [] (a ∷ rest) = ⊥
  Addresses (c ∷ cs) [] = ⊥
  Addresses (c ∷ cs) (a ∷ rest) = (socket_addr M c ≡ some a) × Addresses cs rest
