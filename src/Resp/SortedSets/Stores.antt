-- ===== src/Resp/SortedSets/Stores.antt =====
-- src/protocol/resp/zadd.rs, zrem.rs, zunionstore.rs.
pub mod Quiet
use mathlib.Core.List.{zip}
use momento_proxy.Base.{
  Bool, ◌||◌, Option, none, some, List, [], ◌∷◌, map, Bytes, String, length, if◌then◌else◌,
}
use momento_proxy.Base.Text.{is_utf8}
use momento_proxy.Base.Exec.{Result, ok, err, pure, raise, panic, lift, ◌>>=◌, ◌>>◌}
use momento_proxy.Error.{ProxyError, io, custom}
use momento_proxy.Client.{Floats, Client, AggregateFunction}
use momento_proxy.Metrics.{Method, calls, ex}
use momento_proxy.Klog.{Status, klog_1}
use momento_proxy.Context.{Handler, klog, call, or_return}
use momento_proxy.Resp.Utils.{integer_line, update_method_metrics, command}
use momento_proxy.Resp.SortedSets.{one_line, logged_write, zincrby, finite_score}

-- `optional_args()` of ZADD.
pub record AddArgs : Type 0 where
  pub nx : Bool
  pub xx : Bool
  pub gt : Bool
  pub lt : Bool
  pub ch : Bool
  pub incr : Bool

module _ {F : Floats} (client : Client F) (cache_name : String) where
  open client use {State, MomentoError}
  open F use {F64, F32}

  abbrev Action : Type 0
  Action = Handler State MomentoError (Unit {0})

  unfoldable pub zrem : Bytes → List Bytes → Action
  unfolding logged_write
  zrem key members =
      command (calls Method.zrem) (ex Method.zrem)
        (client.sorted_set_remove_elements cache_name key members)
        (one_line client cache_name "zrem" key Status.server_error)
        (one_line client cache_name "zrem" key Status.timeout)
        λ _. logged_write client cache_name "zrem" key Status.hit (integer_line (length members))

  -- `ZADD .. INCR` with the first of the members.
  unfoldable pub zadd_incr : Bytes → List (F64 × Bytes) → Action
  zadd_incr key [] = panic
  zadd_incr key ((score, member) ∷ _) = zincrby client cache_name key score member

  unfoldable pub zadd_put : Bytes → List (F64 × Bytes) → Action
  unfolding logged_write
  zadd_put key members = do
    outcome ← call (
        client.sorted_set_put_elements cache_name key
          (map (λ m. (finite_score F m.0, m.1)) members))
    or_return (klog (klog_1 "zadd" key Status.server_error 0))
        (klog (klog_1 "zadd" key Status.timeout 0)) outcome
    logged_write client cache_name "zadd" key Status.hit (integer_line (length members))

  unfoldable pub unsupported : AddArgs → Bool
  unsupported args = args.ch || (args.xx || (args.nx || (args.gt || args.lt)))

  -- The future that ZADD runs under its metrics.
  unfoldable pub zadd_checked : Bytes → List (F64 × Bytes) → AddArgs → Action
  unfolding unsupported zadd_incr zadd_put
  zadd_checked key members args =
      if unsupported args
      then (do
        klog (klog_1 "zadd" key Status.server_error 0)
        raise (io "Momento proxy does not support CH, XX, NX, GT, or LT optional arguments"))
      else if args.incr
      then zadd_incr key members
      else zadd_put key members

  unfoldable pub zadd : Bytes → List (F64 × Bytes) → AddArgs → Action
  unfolding zadd_checked
  zadd key members args =
      update_method_metrics (calls Method.zadd) (ex Method.zadd) (zadd_checked key members args)

  unfoldable pub weight_of : Bytes → Result (ProxyError MomentoError) F32
  weight_of weight =
      if is_utf8 weight
      then (elim (F.parse_f32 weight) [
        | none ↦ err (custom "Invalid float from weight")
        | some w ↦ ok w
      ])
      else err (custom "Invalid UTF-8 from weight")

  unfoldable pub weighted : List (Bytes × Bytes) → Handler State MomentoError (List (Bytes × F32))
  unfolding weight_of
  weighted [] = pure []
  weighted ((source, weight) ∷ rest) = do
    w ← lift (weight_of weight)
    sources ← weighted rest
    pure ((source, w) ∷ sources)

  unfoldable pub sources_of :
      List Bytes → Option (List Bytes) → Handler State MomentoError (List (Bytes × F32))
  unfolding weighted
  sources_of source_keys (some weights) = weighted (zip source_keys weights)
  sources_of source_keys none = pure (map (λ key. (key, F.one)) source_keys)

  unfoldable pub aggregate_of : Option AggregateFunction → AggregateFunction
  aggregate_of (some f) = f
  aggregate_of none = AggregateFunction.sum

  -- The call of ZUNIONSTORE, and its reply.
  unfoldable pub store_sources : Bytes → AggregateFunction → List (Bytes × F32) → Action
  unfolding logged_write
  store_sources destination aggregate sources = do
    outcome ← call (client.sorted_set_union_store cache_name destination sources aggregate)
    len ←
        or_return (klog (klog_1 "zunionstore" destination Status.server_error 0))
          (klog (klog_1 "zunionstore" destination Status.timeout 0)) outcome
    logged_write client cache_name "zunionstore" destination Status.stored (integer_line len)

  -- The future that ZUNIONSTORE runs under its metrics.
  unfoldable pub store_union :
      Bytes → List Bytes → Option (List Bytes) → Option AggregateFunction → Action
  unfolding sources_of aggregate_of store_sources
  store_union destination source_keys weights aggregate =
      sources_of source_keys weights >>= store_sources destination (aggregate_of aggregate)

  unfoldable pub zunionstore :
      Bytes → List Bytes → Option (List Bytes) → Option AggregateFunction → Action
  unfolding store_union
  zunionstore destination source_keys weights aggregate =
      update_method_metrics (calls Method.zunionstore) (ex Method.zunionstore)
        (store_union destination source_keys weights aggregate)
