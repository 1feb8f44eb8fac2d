-- ===== src/Startup/Main.antt =====
-- What a proxy that serves has been configured to.
use momento_proxy.Base.{
  ◌-◌, replicate, length, ℕ, Option, ◌∷◌, ◌++◌, Bytes, codes, concat_map, ◌≤◌, ◌≡◌, ◌≢◌, refl, sym,
  ap, ◌∙◌, subst, Bool, true, false, none, some, List, [], ltb, if◌then◌else◌, arith,
}
use momento_proxy.Base.Exec.{◌>>◌, Result, ok, err, panicked}
use momento_proxy.Cache.{capped_ttl}
use momento_proxy.Config.{CacheConfig}
use mathlib.Core.List.{Perm}
use momento_proxy.Metrics.Listing.{
  Metric, MetricKind, counter, gauge, histogram, unlisted, metric_lines, pad, listing,
}
use momento_proxy.Metrics.Listing.Sorted.{Ascends, listing-Ascends}
use momento_proxy.Metrics.Export.{observe_connections, Task, builder, build}
use momento_proxy.Metrics.Export.Configured.{Exported, build-Exported}
use momento_proxy.Startup.{
  Machine, Failure, LocalCache, local_cache, kept_ttl, listed, serving, Served, MainResult, load,
  validate, spawn, launched, serve, served_or_listed, main,
}
use momento_proxy.Startup.Serves.{AllValid, Describes, step_ok, validate-exact, spawn-Describes}

-- A text in a column, with spaces behind it.
abbrev pub in_column : ℕ → Bytes → Bytes
in_column width text = text ++ replicate (width - length text) 32

-- The lines that a metric is to have in the list.
abbrev pub kind_lines : Bytes → MetricKind → List Bytes
kind_lines name counter = (in_column 31 name ++ codes " counter") ∷ []
kind_lines name gauge = (in_column 31 name ++ codes " gauge") ∷ []
kind_lines name histogram =
    (in_column 31 (name ++ codes "_" ++ codes "p25") ++ codes " percentile")
    ∷ (in_column 31 (name ++ codes "_" ++ codes "p50") ++ codes " percentile")
    ∷ (in_column 31 (name ++ codes "_" ++ codes "p75") ++ codes " percentile")
    ∷ (in_column 31 (name ++ codes "_" ++ codes "p90") ++ codes " percentile")
    ∷ (in_column 31 (name ++ codes "_" ++ codes "p99") ++ codes " percentile")
    ∷ (in_column 31 (name ++ codes "_" ++ codes "p999") ++ codes " percentile")
    ∷ (in_column 31 (name ++ codes "_" ++ codes "p9999") ++ codes " percentile")
    ∷ []
kind_lines name unlisted = []

abbrev pub lines_of : Metric → List Bytes
lines_of m = kind_lines m.name m.kind

metric_lines_lem :
    (name : Bytes) (k : MetricKind)
    → metric_lines (record { name = name; kind = k }) ≡ kind_lines name k
unfolding metric_lines pad
metric_lines_lem name counter = refl
metric_lines_lem name gauge = refl
metric_lines_lem name histogram = refl
metric_lines_lem name unlisted = refl

lines_of-all : (ms : List Metric) → concat_map metric_lines ms ≡ concat_map lines_of ms
lines_of-all [] = refl
lines_of-all (m ∷ ms) =
    ap (λ x. x ++ concat_map metric_lines ms) (metric_lines_lem m.name m.kind)
    ∙ ap (λ x. lines_of m ++ x) (lines_of-all ms)

kept_ttl-bounds :
    (c : CacheConfig)
    → (1 ≤ kept_ttl c)
      × (kept_ttl c ≤ 157680000)
      × (c.memory_cache_ttl_seconds ≡ 0 → kept_ttl c ≡ 157680000)
      × (1 ≤ c.memory_cache_ttl_seconds → kept_ttl c ≤ c.memory_cache_ttl_seconds)
unfolding kept_ttl capped_ttl
kept_ttl-bounds c = (ground arith, ground arith, λ h. ground arith, λ h. ground arith)

-- The local cache that a configuration asks for is there exactly if its size is not 0, and it has that
-- size. Its TTL is not 0 and at most five years; it is five years where 0 is configured, and at
-- most what is configured otherwise.
pub local_cache-bounds :
    (c : CacheConfig)
    → (c.memory_cache_bytes ≡ 0 → local_cache c ≡ none)
      × (1 ≤ c.memory_cache_bytes
          → (m : LocalCache) × (local_cache c ≡ some m)
            × (m.max_bytes ≡ c.memory_cache_bytes)
            × (1 ≤ m.ttl)
            × (m.ttl ≤ 157680000)
            × (c.memory_cache_ttl_seconds ≡ 0 → m.ttl ≡ 157680000)
            × (1 ≤ c.memory_cache_ttl_seconds → m.ttl ≤ c.memory_cache_ttl_seconds))
unfolding local_cache
local_cache-bounds c = (
  λ z. rw z refl,
  λ z.
      let (p, q, r, t) = kept_ttl-bounds c in
      let e : ltb 0 c.memory_cache_bytes ≡ true = ground arith in
      (
        record { max_bytes = c.memory_cache_bytes; ttl = kept_ttl c },
        ap
            (λ b.
              if b
              then some (record { max_bytes = c.memory_cache_bytes; ttl = kept_ttl c })
              else none)
            e,
        refl,
        p,
        q,
        r,
        t,
      ),
)

module _ (M : Machine) where
  -- What a proxy serves with.
  abbrev served :
      List (Task M.otlp) × List (Served M)
      → Result Failure (MainResult M)
      → List (Task M.otlp) × List (Served M)
  served d (ok (serving ts vs)) = (ts, vs)
  served d (ok (listed lines)) = d
  served d (err e) = d
  served d panicked = d

  serve-services :
      (admin : M.Admin) (threads : Option ℕ) (cs : List CacheConfig) (s : M.State)
      (ts : List (Task M.otlp)) (vs : List (Served M))
      → (serve M admin threads cs s).0 ≡ ok (serving ts vs)
      → (t : M.State) × (u : M.State) × ((build {E = Failure} M.otlp builder M.environment t).0
          ≡ ok ts)
        × ((spawn M admin cs u).0 ≡ ok vs)
  unfolding serve
  serve-services admin threads cs s ts vs h =
      let (_, _, h1) = step_ok M (launched M (some 1)) _ s (serving ts vs) h in
      let (_, _, h2) = step_ok M (launched M threads) _ _ (serving ts vs) h1 in
      let (ts', e, h3) = step_ok M (build M.otlp builder M.environment) _ _ (serving ts vs) h2 in
      let (vs', f, h4) = step_ok M (spawn M admin cs) _ _ (serving ts vs) h3 in
      let k = ap (served (ts, vs)) h4 in (_, _, e ∙ ap (λ p. ok p.0) k, f ∙ ap (λ p. ok p.1) k)

  serving-services :
      (stats : Bool) (admin : M.Admin) (threads : Option ℕ) (cs : List CacheConfig) (s : M.State)
      (ts : List (Task M.otlp)) (vs : List (Served M))
      → (served_or_listed M stats admin threads cs s).0 ≡ ok (serving ts vs)
      → (t : M.State) × (u : M.State) × ((build {E = Failure} M.otlp builder M.environment t).0
          ≡ ok ts)
        × ((spawn M admin cs u).0 ≡ ok vs)
  unfolding served_or_listed
  serving-services true admin threads cs s ts vs h = cc
  serving-services false admin threads cs s ts vs h = serve-services admin threads cs s ts vs h

  -- What a proxy that serves has been configured to.
  abbrev pub Configured : List (Task M.otlp) → List (Served M) → M.Admin → List CacheConfig → Type 0
  Configured tasks services admin cs =
      AllValid M cs
      × (cs ≢ [])
      × ((k : M.Credentials) × Describes M k cs services)
      × ((ts : List (Task M.otlp)) × Exported M.otlp builder M.environment
            (M.environment "OTLP_ENDPOINT") (M.environment "OTLP_API_TOKEN") ts
          × (tasks ≡ ts ++ observe_connections 1 ∷ []))

  configured :
      (stats : Bool) (admin : M.Admin) (threads : Option ℕ) (cs : List CacheConfig) (s : M.State)
      (ts : List (Task M.otlp)) (vs : List (Served M))
      → ((validate M cs >> served_or_listed M stats admin threads cs) s).0 ≡ ok (serving ts vs)
      → Configured ts vs admin cs
  configured stats admin threads cs s ts vs h =
      let (_, v, h1) = step_ok M (validate M cs) _ s (serving ts vs) h in
      let (t, u, e, f) = serving-services stats admin threads cs _ ts vs h1 in
      let (ne, d) = spawn-Describes M admin cs u vs f in
      ((validate-exact M cs s).0 v, ne, d, build-Exported M.otlp builder M.environment t ts e)

  -- A proxy that serves has read a file whose caches are all valid, and has one listener for each of them, in
  -- their order: at the address of the cache, with its name, protocol, flags and connections, the local cache and the
  -- buffer size that its configuration gives, and a client whose TTL is that of all clients. It reports its
  -- number of connections every second; it exports its metrics to the endpoint of the environment
  -- with the token of the environment if both are there, and nowhere else.
  pub main_serves :
      (file stats : Bool) (s : M.State) (ts : List (Task M.otlp)) (vs : List (Served M))
      → (main M file stats s).0 ≡ ok (serving ts vs)
      → (admin : M.Admin) × (threads : Option ℕ) × (cs : List CacheConfig) × ((load M s).0
          ≡ ok (admin, threads, cs))
        × Configured ts vs admin cs
  unfolding main
  main_serves true stats s ts vs h =
      let ((admin, threads, cs), e, h1) = step_ok M (load M) _ s (serving ts vs) h in
      (admin, threads, cs, e, configured stats admin threads cs _ ts vs h1)
  main_serves false stats s ts vs h =
      let (_, ne, _, _) = configured stats M.no_admin none [] s ts vs h in absurd (ne refl)

  -- The lines of a list that is printed.
  abbrev lines_or : List Bytes → Result Failure (MainResult M) → List Bytes
  lines_or d (ok (listed lines)) = lines
  lines_or d (ok (serving ts vs)) = d
  lines_or d (err e) = d
  lines_or d panicked = d

  checked_lists :
      (stats : Bool) (admin : M.Admin) (threads : Option ℕ) (cs : List CacheConfig) (s : M.State)
      (lines : List Bytes)
      → ((validate M cs >> served_or_listed M stats admin threads cs) s).0 ≡ ok (listed lines)
      → AllValid M cs × (stats ≡ true) × (listing M.metrics ≡ lines)
  unfolding served_or_listed serve
  checked_lists true admin threads cs s lines h =
      let (_, v, h1) = step_ok M (validate M cs) _ s (listed lines) h in
      ((validate-exact M cs s).0 v, refl, ap (lines_or lines) h1)
  checked_lists false admin threads cs s lines h =
      let (_, _, h1) = step_ok M (validate M cs) _ s (listed lines) h in
      let (_, _, h2) = step_ok M (launched M (some 1)) _ _ (listed lines) h1 in
      let (_, _, h3) = step_ok M (launched M threads) _ _ (listed lines) h2 in
      let (_, _, h4) = step_ok M (build M.otlp builder M.environment) _ _ (listed lines) h3 in
      let (_, _, h5) = step_ok M (spawn M admin cs) _ _ (listed lines) h4 in absurd (cc h5)

  -- A proxy that prints the list of its metrics and ends has been asked for it. The list is a heading and then,
  -- in ascending order, a line for each registered counter and gauge, with its name in a column of 31 and its
  -- type, and for each histogram one for each of seven percentiles, with the label behind the name; each
  -- line as often as it comes up, and no other.
  pub main_lists :
      (file stats : Bool) (s : M.State) (lines : List Bytes)
      → (main M file stats s).0 ≡ ok (listed lines)
      → (stats ≡ true)
        × ((rest : List Bytes) × (lines
              ≡ (in_column 31 (codes "NAME")
                  ++ codes " "
                  ++ in_column 15 (codes "TYPE")
                  ++ codes " DESCRIPTION")
                ∷ rest)
            × Ascends rest
            × Perm rest (concat_map lines_of M.metrics))
  unfolding main pad
  main_lists true stats s lines h =
      let ((admin, threads, cs), _, h1) = step_ok M (load M) _ s (listed lines) h in
      let (_, t, e) = checked_lists stats admin threads cs _ lines h1 in
      let (rest, k, a, p) = listing-Ascends M.metrics in
      (t, (rest, sym e ∙ k, a, subst (Perm rest) (lines_of-all M.metrics) p))
  main_lists false stats s lines h =
      let (_, t, e) = checked_lists stats M.no_admin none [] s lines h in
      let (rest, k, a, p) = listing-Ascends M.metrics in
      (t, (rest, sym e ∙ k, a, subst (Perm rest) (lines_of-all M.metrics) p))
