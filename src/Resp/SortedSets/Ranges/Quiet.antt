-- ===== src/Resp/SortedSets/Ranges/Quiet.antt =====
-- ZRANK, ZREVRANK and ZRANGE leave the guard of their call alone.
use momento_proxy.Base.{ℕ, refl, Bool, List, Bytes, String}
use momento_proxy.Base.Exec.{lift, for_each}
use momento_proxy.Error.{Lookup, hit, miss}
use momento_proxy.Client.{Floats, Client, Rpc}
use momento_proxy.Metrics.{Method}
use momento_proxy.Klog.{Status, klog_1}
use momento_proxy.Metrics.Observations.{counts}
use momento_proxy.Resp.Utils.{parse_score_boundary_as_integer, parse_score_boundary_as_float}
use momento_proxy.Resp.Silent.{
  lift-Silent, Silent, then-Silent, bind-Silent, call-Silent, or_return-Silent, for_each-Silent,
  method-Silent, klog-Silent, command-Silent,
}
use momento_proxy.Resp.SortedSets.{logged_write}
use momento_proxy.Resp.SortedSets.Ranges.{
  RangeType, by_index, by_score, by_lex, RangeArgs, rank_reply, zrank, zrevrank, range_entry,
  zrange_reply, fetch, zrange_response, zrange, is_set,
}

module _ {F : Floats} (client : Client F) (cache_name : String) where
  open client use {State, MomentoError}
  open F use {F64, F32}

  rank_reply-Silent :
      (m : Method) (name : String) (key member : Bytes) (b : Bool) (r : Lookup ℕ)
      → Silent (rank_reply client cache_name m name key member b r)
  unfolding rank_reply logged_write
  rank_reply-Silent m name key member b (hit n) = record { at = λ c. (refl, omega counts) }
  rank_reply-Silent m name key member b miss = record { at = λ c. (refl, omega counts) }

  pub zrank-Silent : (key m : Bytes) (b : Bool) → Silent (zrank client cache_name key m b)
  unfolding zrank
  zrank-Silent key m b = command-Silent _ _ _ _ _ _ (rank_reply-Silent Method.zrank "zrank" key m b)

  pub zrevrank-Silent : (key m : Bytes) (b : Bool) → Silent (zrevrank client cache_name key m b)
  unfolding zrevrank
  zrevrank-Silent key m b =
      command-Silent _ _ _ _ _ _ (rank_reply-Silent Method.zrevrank "zrevrank" key m b)

  zrange_reply-Silent :
      (key : Bytes) (b : Bool) (r : Lookup (List (Bytes × F64)))
      → Silent (zrange_reply client cache_name key b r)
  unfolding zrange_reply range_entry logged_write
  zrange_reply-Silent key b (hit es) = record {
    at = λ c.
        then-Silent (for_each es (range_entry client cache_name b)) _ c _ (refl, omega counts)
          (for_each-Silent es _ (λ e. record { at = λ d. (refl, refl) }))
          (λ a. record { at = λ d. (refl, omega counts) });
  }
  zrange_reply-Silent key b miss = record { at = λ c. (refl, omega counts) }

  fetch-Silent :
      (key : Bytes) (rpc : Rpc State MomentoError (Lookup (List (Bytes × F64))))
      → Silent (fetch client cache_name key rpc)
  unfolding fetch
  fetch-Silent key rpc = call-Silent rpc _ λ o.
      or_return-Silent _ _ o (klog-Silent (klog_1 "zrange" key Status.server_error 0))
        (klog-Silent (klog_1 "zrange" key Status.timeout 0))

  zrange_response-Silent :
      (key start stop : Bytes) (by : RangeType) (args : RangeArgs)
      → Silent (zrange_response client cache_name key start stop by args)
  unfolding zrange_response
  zrange_response-Silent key start stop by_lex args = record { at = λ c. (refl, omega counts) }
  zrange_response-Silent key start stop by_index args =
      bind-Silent (lift (parse_score_boundary_as_integer start)) _ (lift-Silent _) λ first.
        bind-Silent (lift (parse_score_boundary_as_integer stop)) _ (lift-Silent _)
          λ last. fetch-Silent key _
  zrange_response-Silent key start stop by_score args =
      bind-Silent (lift (parse_score_boundary_as_float F start)) _ (lift-Silent _) λ low.
        bind-Silent (lift (parse_score_boundary_as_float F stop)) _ (lift-Silent _)
          λ high. fetch-Silent key _

  pub zrange-Silent :
      (key start stop : Bytes) (by : RangeType) (args : RangeArgs)
      → Silent (zrange client cache_name key start stop by args)
  unfolding zrange
  zrange-Silent key start stop by args = method-Silent _ _ _ (
      bind-Silent (zrange_response client cache_name key start stop by args) _
        (zrange_response-Silent key start stop by args)
        (zrange_reply-Silent key (is_set args.with_scores)))
