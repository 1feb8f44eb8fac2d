-- ===== src/Resp/SortedSets/Stores/Quiet.antt =====
-- ZREM, ZADD and ZUNIONSTORE leave the guard of their call alone.
use mathlib.Core.List.{zip}
use momento_proxy.Base.{
  refl, Bool, true, false, Option, none, some, List, [], ◌∷◌, map, Bytes, String, length,
  if◌then◌else◌,
}
use momento_proxy.Base.Exec.{lift}
use momento_proxy.Client.{Floats, Client, AggregateFunction}
use momento_proxy.Context.{Handler, or_return, klog}
use momento_proxy.Klog.{Status, klog_1}
use momento_proxy.Metrics.Observations.{counts}
use momento_proxy.Resp.Utils.{integer_line}
use momento_proxy.Resp.Silent.{
  lift-Silent, Silent, bind-Silent, call-Silent, or_return-Silent, method-Silent, klog-Silent,
  command-Silent,
}
use momento_proxy.Resp.SortedSets.{logged_write, finite_score}
use momento_proxy.Resp.SortedSets.Quiet.{zincrby-Silent, logged_write-Silent}
use momento_proxy.Resp.SortedSets.Stores.{
  AddArgs, zrem, zadd_incr, zadd_put, zadd_checked, unsupported, zadd, weight_of, weighted,
  sources_of, aggregate_of, store_sources, store_union, zunionstore,
}

module _ {F : Floats} (client : Client F) (cache_name : String) where
  open client use {State, MomentoError}
  open F use {F64, F32}

  pub zrem-Silent : (key : Bytes) (ms : List Bytes) → Silent (zrem client cache_name key ms)
  unfolding zrem logged_write
  zrem-Silent key ms = command-Silent _ _ _ _ _ _ (λ a. record { at = λ c. (refl, omega counts) })

  zadd_incr-Silent :
      (key : Bytes) (ms : List (F64 × Bytes)) → Silent (zadd_incr client cache_name key ms)
  unfolding zadd_incr
  zadd_incr-Silent key [] = record { at = λ c. (refl, refl) }
  zadd_incr-Silent key ((s, m) ∷ _) = zincrby-Silent client cache_name key s m

  zadd_put-Silent :
      (key : Bytes) (ms : List (F64 × Bytes)) → Silent (zadd_put client cache_name key ms)
  unfolding zadd_put
  zadd_put-Silent key ms =
      call-Silent
        (client.sorted_set_put_elements cache_name key
          (map (λ (m : F64 × Bytes). (finite_score F m.0, m.1)) ms))
        _
        λ o.
          bind-Silent
            (or_return (klog (klog_1 "zadd" key Status.server_error 0))
              (klog (klog_1 "zadd" key Status.timeout 0)) o)
            _
            (or_return-Silent _ _ o (klog-Silent (klog_1 "zadd" key Status.server_error 0))
              (klog-Silent (klog_1 "zadd" key Status.timeout 0)))
            (λ a.
              logged_write-Silent client cache_name "zadd" key Status.hit
                (integer_line (length ms)))

  if-Silent :
      {m k : Handler State MomentoError (Unit {0})}
      → (b : Bool) → Silent m
      → Silent k
      → Silent (if b then m else k)
  if-Silent true h j = h
  if-Silent false h j = j

  zadd_checked-Silent :
      (key : Bytes) (ms : List (F64 × Bytes)) (args : AddArgs)
      → Silent (zadd_checked client cache_name key ms args)
  unfolding zadd_checked
  zadd_checked-Silent key ms args =
      if-Silent (unsupported client cache_name args) (record { at = λ c. (refl, omega counts) })
        (if-Silent args.incr (zadd_incr-Silent key ms) (zadd_put-Silent key ms))

  pub zadd-Silent :
      (key : Bytes) (ms : List (F64 × Bytes)) (args : AddArgs)
      → Silent (zadd client cache_name key ms args)
  unfolding zadd
  zadd-Silent key ms args = method-Silent _ _ _ (zadd_checked-Silent key ms args)

  weighted-Silent : (ws : List (Bytes × Bytes)) → Silent (weighted client cache_name ws)
  unfolding weighted
  weighted-Silent [] = record { at = λ c. (refl, refl) }
  weighted-Silent ((source, weight) ∷ rest) =
      bind-Silent (lift (weight_of client cache_name weight)) _ (lift-Silent _) λ w.
        bind-Silent (weighted client cache_name rest) _ (weighted-Silent rest)
          λ sources. record { at = λ c. (refl, refl) }

  sources_of-Silent :
      (ks : List Bytes) (ws : Option (List Bytes)) → Silent (sources_of client cache_name ks ws)
  unfolding sources_of
  sources_of-Silent ks (some ws) = weighted-Silent (zip ks ws)
  sources_of-Silent ks none = record { at = λ c. (refl, refl) }

  store_sources-Silent :
      (to : Bytes) (f : AggregateFunction) (sources : List (Bytes × F32))
      → Silent (store_sources client cache_name to f sources)
  unfolding store_sources
  store_sources-Silent to f sources =
      call-Silent (client.sorted_set_union_store cache_name to sources f) _ λ o.
        bind-Silent
          (or_return (klog (klog_1 "zunionstore" to Status.server_error 0))
            (klog (klog_1 "zunionstore" to Status.timeout 0)) o)
          _
          (or_return-Silent _ _ o (klog-Silent (klog_1 "zunionstore" to Status.server_error 0))
            (klog-Silent (klog_1 "zunionstore" to Status.timeout 0)))
          (λ n.
            logged_write-Silent client cache_name "zunionstore" to Status.stored (integer_line n))

  pub zunionstore-Silent :
      (to : Bytes) (ks : List Bytes) (ws : Option (List Bytes)) (f : Option AggregateFunction)
      → Silent (zunionstore client cache_name to ks ws f)
  unfolding zunionstore store_union
  zunionstore-Silent to ks ws f = method-Silent _ _ _ (
      bind-Silent (sources_of client cache_name ks ws) _ (sources_of-Silent ks ws)
        (store_sources-Silent to (aggregate_of client cache_name f)))
