-- ===== src/Metrics/Listing.antt =====
-- The listing of the metrics that `main` of src/main.rs prints for `--stats`, with the percentiles of
-- src/metrics/mod.rs. Names are ASCII, so a character is a byte.
pub mod Sorted
use momento_proxy.Base.{
  ℕ, ◌-◌, Bool, true, false, List, [], ◌∷◌, ◌++◌, map, Bytes, codes, ltb, ◌==◌, length, replicate,
  concat_map, if◌then◌else◌,
}

-- What a metric is found to be; `unlisted` is one that cannot be looked into or is of another type.
pub data MetricKind : Type 0 where
  counter gauge histogram unlisted : MetricKind

-- An entry of `metriken::metrics()`.
pub record Metric : Type 0 where
  pub name : Bytes
  pub kind : MetricKind

-- `PERCENTILES`, of which only the labels are printed.
abbrev pub percentiles : List Bytes
percentiles =
    codes "p25"
    ∷ codes "p50"
    ∷ codes "p75"
    ∷ codes "p90"
    ∷ codes "p99"
    ∷ codes "p999"
    ∷ codes "p9999"
    ∷ []

-- `{:<width}`
unfoldable pub pad : ℕ → Bytes → Bytes
pad width text = text ++ replicate (width - length text) 32

-- The lines that the loop pushes for a metric.
unfoldable pub metric_lines : Metric → List Bytes
unfolding pad
metric_lines m = elim m.kind [
  | counter ↦ (pad 31 m.name ++ codes " counter") ∷ []
  | gauge ↦ (pad 31 m.name ++ codes " gauge") ∷ []
  | histogram ↦
      map (λ label. pad 31 (m.name ++ codes "_" ++ label) ++ codes " percentile") percentiles
  | unlisted ↦ []
]

-- The order of `String`.
unfoldable pub le_bytes : Bytes → Bytes → Bool
le_bytes [] t = true
le_bytes (a ∷ s) [] = false
le_bytes (a ∷ s) (b ∷ t) = if ltb a b then true else if a == b then le_bytes s t else false

insert : Bytes → List Bytes → List Bytes
unfolding le_bytes
insert x [] = x ∷ []
insert x (y ∷ ys) = if le_bytes x y then x ∷ y ∷ ys else y ∷ insert x ys

-- `metrics.sort()`
unfoldable pub sort : List Bytes → List Bytes
unfolding insert
sort [] = []
sort (x ∷ xs) = insert x (sort xs)

-- The lines that are printed.
unfoldable pub listing : List Metric → List Bytes
unfolding pad sort metric_lines
listing metrics =
    (pad 31 (codes "NAME") ++ codes " " ++ pad 15 (codes "TYPE") ++ codes " DESCRIPTION")
    ∷ sort (concat_map metric_lines metrics)
