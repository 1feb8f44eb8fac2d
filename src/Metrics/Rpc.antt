-- ===== src/Metrics/Rpc.antt =====
-- src/metrics/rpc.rs: the guard that records how a call ended. Clones of a guard share its
-- `recorded` flag, so one value per request models them all, and each drop of a clone is a step of its own;
-- the latency itself is not modelled.
use momento_proxy.Base.{Bool, true, false, List, [], ◌∷◌, String, if◌then◌else◌}
use momento_proxy.Base.Exec.{Result, ok, err, panicked}
use momento_proxy.Metrics.{
  Event, observed, Latency, latency_ok, latency_error, latency_timeout, latency_miss,
  latency_hit_mcache, latency_hit_momento,
}

pub record RpcCallGuard : Type 0 where
  pub rpc : String
  pub recorded : Bool

unfoldable pub new : String → RpcCallGuard
new rpc = record { rpc = rpc; recorded = false }

-- The guard after an operation and the observations that it makes.
abbrev pub Observes : Type 0
Observes = RpcCallGuard × List Event

-- `compare_exchange(false, true, ..)`: the observation is made by who sets the flag.
observe_first : Latency → RpcCallGuard → Observes
observe_first l g =
    if g.recorded then (g, []) else (record g { recorded = true }, observed g.rpc l ∷ [])

-- The flag is set, and the observation is made in any case.
observe_always : Latency → RpcCallGuard → Observes
observe_always l g = (record g { recorded = true }, observed g.rpc l ∷ [])

unfoldable pub complete_ok : RpcCallGuard → Observes
unfolding observe_first
complete_ok = observe_first latency_ok

unfoldable pub complete_error : RpcCallGuard → Observes
unfolding observe_first
complete_error = observe_first latency_error

unfoldable pub complete {ℓ κ} : {T : Type ℓ} {E : Type κ} → Result E T → RpcCallGuard → Observes
unfolding complete_ok complete_error
complete (ok _) = complete_ok
complete (err _) = complete_error
complete panicked = λ g. (g, [])

unfoldable pub complete_miss : RpcCallGuard → Observes
unfolding observe_always
complete_miss = observe_always latency_miss

unfoldable pub complete_hit_mcache : RpcCallGuard → Observes
unfolding observe_always
complete_hit_mcache = observe_always latency_hit_mcache

unfoldable pub complete_hit_momento : RpcCallGuard → Observes
unfolding observe_always
complete_hit_momento = observe_always latency_hit_momento

-- `Drop`: a clone goes out of scope.
unfoldable pub drop_guard : RpcCallGuard → Observes
unfolding observe_first
drop_guard = observe_first latency_timeout
