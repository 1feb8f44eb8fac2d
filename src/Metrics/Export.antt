-- ===== src/Metrics/Export.antt =====
-- src/metrics/builder.rs: what the proxy does with its metrics, as the environment says. The libraries
-- of the export are a parameter.
pub mod Configured
use momento_proxy.Base.{ℕ, Option, none, some, List, [], ◌∷◌, ◌++◌, Bytes, String, codes}
use momento_proxy.Base.Exec.{Exec, pure, panic, ◌>>=◌}

-- `std::env::var(variable).ok()`
abbrev pub Environment : Type 0
Environment = String → Option Bytes

-- `get_client`, and `MetadataValue::try_from`; `none` is an error.
pub record Otlp : Type 1 where
  pub Channel : Type 0
  pub MetadataValue : Type 0
  pub get_client : Bytes → Option Channel
  pub metadata_value : Bytes → Option MetadataValue

pub record ProxyMetricsBuilder : Type 0 where
  pub batch_interval : ℕ
  pub batch_capacity : ℕ

-- `ProxyMetricsBuilder::new`; the interval is in seconds.
abbrev pub builder : ProxyMetricsBuilder
builder = record { batch_interval = 1; batch_capacity = 128 }

-- What the downstream sends to, with which header and which dimensions.
pub record Downstream (L : Otlp) : Type 0 where
  pub channel : L.Channel
  pub header : String × L.MetadataValue
  pub dimensions : List (String × Bytes)

-- The tasks that are spawned: the downstream takes batches from a channel of that capacity, and the gauges
-- and the number of open connections are reported at that interval.
pub data Task (L : Otlp) : Type 0 where
  send_batches_forever : Downstream L → ℕ → Task L
  report_gauges_forever : ℕ → Task L
  observe_connections : ℕ → Task L

-- The tasks that `DefaultProxyMetrics::new` spawns.
unfoldable pub new_metrics : (L : Otlp) → ℕ → List (Task L)
new_metrics L batch_interval = observe_connections batch_interval ∷ []

or_unknown : Option Bytes → Bytes
or_unknown none = codes "unknown"
or_unknown (some val) = val

unfoldable pub get_environment_variable : Environment → String → Bytes
unfolding or_unknown
get_environment_variable env variable = or_unknown (env variable)

unfoldable pub get_base_environment_dimensions : Environment → List (String × Bytes)
unfolding get_environment_variable
get_base_environment_dimensions env =
    ("service.instance.id", get_environment_variable env "SERVICE_INSTANCE_ID")
    ∷ ("service.name", get_environment_variable env "SERVICE_NAME")
    ∷ []

module _ {E S : Type 0} (L : Otlp) (b : ProxyMetricsBuilder) (env : Environment) where
  -- `expect` and `unwrap`
  abbrev expect : {A : Type 0} → Option A → Exec E S A
  expect none = panic
  expect (some a) = pure a

  -- `match (&endpoint, &api_token) { .. }`
  unfoldable pub export_tasks : Option Bytes → Option Bytes → Exec E S (List (Task L))
  unfolding get_base_environment_dimensions
  export_tasks (some endpoint) (some api_token) = do
    channel ← expect (L.get_client endpoint)
    value ← expect (L.metadata_value api_token)
    let downstream : Downstream L = record {
      channel = channel;
      header = ("api-token", value);
      dimensions = get_base_environment_dimensions env;
    }
    pure (
        send_batches_forever downstream b.batch_capacity
        ∷ report_gauges_forever b.batch_interval
        ∷ [])
  export_tasks (some endpoint) none = pure []
  export_tasks none api_token = pure []

  -- `ProxyMetricsBuilder::build`
  unfoldable pub build : Exec E S (List (Task L))
  unfolding export_tasks new_metrics
  build = do
    tasks ← export_tasks (env "OTLP_ENDPOINT") (env "OTLP_API_TOKEN")
    pure (tasks ++ new_metrics L b.batch_interval)
