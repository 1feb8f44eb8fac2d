-- ===== src/Metrics/Export/Configured.antt =====
-- When the metrics are exported, and where to.
use momento_proxy.Base.{
  ◌≡◌, refl, ap, ◌⊎◌, inl, inr, Option, none, some, List, [], ◌∷◌, ◌++◌, Bytes, codes, Option-cases,
}
use momento_proxy.Base.Exec.{Result, ok, err, panicked, pure, continue, ◌>>=◌}
use momento_proxy.Metrics.Export.{
  Environment, Otlp, ProxyMetricsBuilder, Task, send_batches_forever, report_gauges_forever,
  observe_connections, or_unknown, get_environment_variable, get_base_environment_dimensions,
  expect, export_tasks, build,
}

module _ (L : Otlp) (b : ProxyMetricsBuilder) (env : Environment) where
  -- What the environment gives, or `unknown`.
  abbrev pub given : Option Bytes → Bytes
  given none = codes "unknown"
  given (some val) = val

  -- The tasks that export the metrics.
  abbrev pub exporting : L.Channel → L.MetadataValue → List (Task L)
  exporting channel value =
      send_batches_forever
        (record {
          channel = channel;
          header = ("api-token", value);
          dimensions =
              ("service.instance.id", given (env "SERVICE_INSTANCE_ID"))
              ∷ ("service.name", given (env "SERVICE_NAME"))
              ∷ [];
        })
        b.batch_capacity
      ∷ report_gauges_forever b.batch_interval
      ∷ []

  -- The same, as they are made.
  abbrev exported : L.Channel → L.MetadataValue → List (Task L)
  exported channel value =
      send_batches_forever
        (record {
          channel = channel;
          header = ("api-token", value);
          dimensions =
              ("service.instance.id", get_environment_variable env "SERVICE_INSTANCE_ID")
              ∷ ("service.name", get_environment_variable env "SERVICE_NAME")
              ∷ [];
        })
        b.batch_capacity
      ∷ report_gauges_forever b.batch_interval
      ∷ []

  get_environment_variable_lem : (o : Option Bytes) → or_unknown o ≡ given o
  unfolding or_unknown
  get_environment_variable_lem none = refl
  get_environment_variable_lem (some val) = refl

  exporting_lem :
      (channel : L.Channel) (value : L.MetadataValue)
      → exported channel value ≡ exporting channel value
  unfolding get_environment_variable
  exporting_lem channel value =
      rw
        (
          get_environment_variable_lem (env "SERVICE_INSTANCE_ID"),
          get_environment_variable_lem (env "SERVICE_NAME"),
        )
        refl

  -- The tasks for the export to an endpoint and a token.
  abbrev pub Exported : Option Bytes → Option Bytes → List (Task L) → Type 0
  Exported e t tasks =
      (((e ≡ none) ⊎ (t ≡ none)) × (tasks ≡ []))
      ⊎ ((endpoint : Bytes) × (api_token : Bytes) × (channel : L.Channel)
          × (value : L.MetadataValue) × (e ≡ some endpoint)
          × (t ≡ some api_token)
          × (L.get_client endpoint ≡ some channel)
          × (L.metadata_value api_token ≡ some value)
          × (tasks ≡ exporting channel value))

module _ {E S : Type 0} (L : Otlp) (b : ProxyMetricsBuilder) (env : Environment) where
  unset :
      (e t : Option Bytes) (s : S)
      → (e ≡ none) ⊎ (t ≡ none)
      → export_tasks {E = E} L b env e t s ≡ (ok [], s)
  unfolding export_tasks
  unset none t s h = refl
  unset (some e) none s h = refl
  unset (some e) (some t) s (inl h) = cc
  unset (some e) (some t) s (inr h) = cc

  accepted :
      (e t : Bytes) (channel : L.Channel) (value : L.MetadataValue) (s : S)
      → L.get_client e ≡ some channel
      → L.metadata_value t ≡ some value
      → export_tasks {E = E} L b env (some e) (some t) s ≡ (ok (exporting L b env channel value), s)
  unfolding export_tasks get_base_environment_dimensions
  accepted e t channel value s h k =
      rw (h, k) (ap (λ x. (ok x, s)) (exporting_lem L b env channel value))

  refused :
      (e t : Bytes) (s : S)
      → (L.get_client e ≡ none) ⊎ (L.metadata_value t ≡ none)
      → export_tasks {E = E} L b env (some e) (some t) s ≡ (panicked, s)
  unfolding export_tasks
  refused e t s (inl h) = rw h refl
  refused e t s (inr h) = elim (Option-cases (L.get_client e)) [
    | inl k ↦ rw k refl
    | inr (c, k) ↦ rw (k, h) refl
  ]

  -- Where an endpoint or a token is missing in the environment, the number of connections is observed and
  -- nothing is exported. Where both are there and the libraries take them, the metrics are
  -- exported to that endpoint with that token, under the dimensions that the environment gives, which are
  -- `unknown` where it does not. Where the libraries refuse one of them, the start panics.
  pub build_lem :
      (s : S)
      → ((env "OTLP_ENDPOINT" ≡ none) ⊎ (env "OTLP_API_TOKEN" ≡ none)
          → build {E = E} L b env s ≡ (ok (observe_connections b.batch_interval ∷ []), s))
        × ((endpoint api_token : Bytes)
            → env "OTLP_ENDPOINT" ≡ some endpoint
            → env "OTLP_API_TOKEN" ≡ some api_token
            → ((channel : L.Channel) (value : L.MetadataValue)
                → L.get_client endpoint ≡ some channel
                → L.metadata_value api_token ≡ some value
                → build {E = E} L b env s ≡ (
                  ok (exporting L b env channel value ++ observe_connections b.batch_interval ∷ []),
                  s,
                ))
              × ((L.get_client endpoint ≡ none) ⊎ (L.metadata_value api_token ≡ none)
                  → build {E = E} L b env s ≡ (panicked, s)))
  unfolding build
  build_lem s =
      let observed = λ (p : Result E (List (Task L)) × S).
        continue p.0 (λ tasks. pure (tasks ++ observe_connections b.batch_interval ∷ [])) p.1 in
      (
        λ h. ap observed (unset (env "OTLP_ENDPOINT") (env "OTLP_API_TOKEN") s h),
        λ e t h k. (
          λ c v x y. rw (h, k) (ap observed (accepted e t c v s x y)),
          λ x. rw (h, k) (ap observed (refused e t s x)),
        ),
      )

  taken :
      (c : Option L.Channel) (v : Option L.MetadataValue) (s : S) (tasks : List (Task L))
      → ((expect {E = E} {S = S} L b env c >>= λ channel.
            expect {E = E} {S = S} L b env v >>= λ value. pure (exported L b env channel value))
          s).0
        ≡ ok tasks
      → (channel : L.Channel) × (value : L.MetadataValue) × (c ≡ some channel)
        × (v ≡ some value)
        × (tasks ≡ exporting L b env channel value)
  taken none v s tasks h = cc
  taken (some c) none s tasks h = cc
  taken (some c) (some v) s tasks h = (c, v, refl, refl, cc (h, exporting_lem L b env c v))

  export_tasks-Exported :
      (e t : Option Bytes) (s : S) (tasks : List (Task L))
      → (export_tasks {E = E} L b env e t s).0 ≡ ok tasks
      → Exported L b env e t tasks
  unfolding export_tasks get_base_environment_dimensions
  export_tasks-Exported none t s tasks h = inl (inl refl, cc)
  export_tasks-Exported (some e) none s tasks h = inl (inr refl, cc)
  export_tasks-Exported (some e) (some t) s tasks h =
      let (c, v, x, y, z) = taken (L.get_client e) (L.metadata_value t) s tasks h in
      inr (e, t, c, v, refl, refl, x, y, z)

  appended :
      (r : Result E (List (Task L))) (s : S) (x : Task L) (tasks : List (Task L))
      → (continue r (λ ts. pure (ts ++ x ∷ [])) s).0 ≡ ok tasks
      → (ts : List (Task L)) × (r ≡ ok ts) × (tasks ≡ ts ++ x ∷ [])
  appended (ok ts) s x tasks h = (ts, refl, cc)
  appended (err e) s x tasks h = cc
  appended panicked s x tasks h = cc

  -- Where the metrics go: to the endpoint of the environment, if there is one with a token, and nowhere
  -- else.
  pub build-Exported :
      (s : S) (tasks : List (Task L))
      → (build {E = E} L b env s).0 ≡ ok tasks
      → (ts : List (Task L)) × Exported L b env (env "OTLP_ENDPOINT") (env "OTLP_API_TOKEN") ts
        × (tasks ≡ ts ++ observe_connections b.batch_interval ∷ [])
  unfolding build
  build-Exported s tasks h =
      let r = export_tasks {E = E} L b env (env "OTLP_ENDPOINT") (env "OTLP_API_TOKEN") s in
      let (ts, e, k) = appended r.0 r.1 _ tasks h in
      (ts, export_tasks-Exported (env "OTLP_ENDPOINT") (env "OTLP_API_TOKEN") s ts e, k)
