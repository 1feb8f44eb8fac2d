-- ===== src/Frontend/Dispatch/Observed.antt =====
-- Each request that is dispatched is observed: src/frontend.rs, `with_rpc_call_guard`.
use momento_proxy.Base.{◌≡◌, refl, List, ◌++◌, String}
use momento_proxy.Base.Exec.{raise}
use momento_proxy.Error.{unsupported_command}
use momento_proxy.Client.{Floats, Client}
use momento_proxy.Context.{Context, Handler}
use momento_proxy.Metrics.{Event}
use momento_proxy.Metrics.Observations.{seen}
use momento_proxy.Metrics.Endpoints.{
  Endpoint, resp_del, resp_get, resp_hdel, resp_hexists, resp_hget, resp_hgetall, resp_hincrby,
  resp_hkeys, resp_hlen, resp_hmget, resp_hset, resp_hvals, resp_lindex, resp_llen, resp_lpop,
  resp_lpush, resp_lrange, resp_rpop, resp_rpush, resp_sadd, resp_sdiff, resp_set, resp_sinter,
  resp_sismember, resp_smembers, resp_srem, resp_sunion, resp_unimplemented, resp_zadd, resp_zcard,
  resp_zcount, resp_zincrby, resp_zmscore, resp_zrange, resp_zrank, resp_zrem, resp_zrevrank,
  resp_zscore, resp_zunionstore, begin_shared, begin, record_api_call, metrics,
}
use momento_proxy.Metrics.Rpc
use momento_proxy.Resp.Silent.{Silent}
use momento_proxy.Resp.Strings.Quiet.{del-Silent, get-Silent, set-Silent}
use momento_proxy.Resp.Hash.Quiet.{
  hdel-Silent, hexists-Silent, hget-Silent, hgetall-Silent, hincrby-Silent, hkeys-Silent,
  hlen-Silent, hmget-Silent, hset-Silent, hvals-Silent,
}
use momento_proxy.Resp.Lists.Quiet.{
  lindex-Silent, llen-Silent, lpop-Silent, lrange-Silent, lpush-Silent, rpush-Silent, rpop-Silent,
}
use momento_proxy.Resp.Sets.Quiet.{
  sadd-Silent, srem-Silent, sdiff-Silent, sunion-Silent, sinter-Silent, smembers-Silent,
  sismember-Silent,
}
use momento_proxy.Resp.SortedSets.Quiet.{
  zcard-Silent, zcount-Silent, zincrby-Silent, zscore-Silent, zmscore-Silent,
}
use momento_proxy.Resp.SortedSets.Ranges.Quiet.{zrank-Silent, zrevrank-Silent, zrange-Silent}
use momento_proxy.Resp.SortedSets.Stores.Quiet.{zrem-Silent, zadd-Silent, zunionstore-Silent}
use momento_proxy.Frontend.Dispatch.{
  Request, del, get, set, hash, list, sets, sorted_set, other, HashRequest, delete_fields, exists,
  get_field, get_all, incr_by, keys, len, multi_get, set_fields, values, ListRequest, index, pop,
  range, push, push_back, pop_back, SetRequest, add, rem, diff, union, intersect, members,
  is_member, SortedSetRequest, cardinality, increment, score, multi_score, remove, rank,
  reverse_rank, count, union_store, dispatch, dispatch_hash, dispatch_list, dispatch_set,
  dispatch_sorted_set, guarded, with_rpc_call_guard,
}
use momento_proxy.Frontend.Dispatch.Names.{
  rpc_of, rpc_of_hash, rpc_of_list, rpc_of_set, rpc_of_sorted_set,
}
use momento_proxy.Frontend.Dispatch.Guard.{end_of, observed_once}

module _ {S E : Type 0} where
  -- The observation of the result, under a name, behind everything else that happened, and no other one.
  pub record ObservedOnce (rpc : String) (m : Handler S E (Unit {0})) (c : Context S) : Type 0 where
    pub before : List Event
    pub silent : seen before ≡ seen c.events
    pub last : (m c).1.events ≡ before ++ end_of rpc (m c).0

module _ {S E : Type 0} where
  with_rpc_call_guard-ObservedOnce :
      (rpc : String) (m : Handler S E (Unit {0}))
      → Silent m
      → (c : Context S) → ObservedOnce rpc (with_rpc_call_guard (Rpc.new rpc) m) c
  unfolding with_rpc_call_guard
  with_rpc_call_guard-ObservedOnce rpc m h c =
      let c' : Context S = record c { recorder = Rpc.new rpc } in
      record {
        before = (m c').1.events;
        silent = (h.at c').1;
        last = observed_once rpc m c (h.at c').0;
      }

module _ {F : Floats} (client : Client F) (cache_name : String) where
  open client use {State, MomentoError}

  guarded-ObservedOnce :
      (e : Endpoint) (m : Handler State MomentoError (Unit {0}))
      → Silent m
      → (c : Context State) → ObservedOnce (metrics e).rpc (guarded client cache_name e m) c
  unfolding guarded begin_shared begin record_api_call
  guarded-ObservedOnce e m h c = with_rpc_call_guard-ObservedOnce (metrics e).rpc m h c

  dispatch_hash-ObservedOnce :
      (q : HashRequest) (c : Context State)
      → ObservedOnce (rpc_of_hash q) (dispatch_hash client cache_name q) c
  unfolding dispatch_hash metrics
  dispatch_hash-ObservedOnce (delete_fields k fs) c =
      guarded-ObservedOnce resp_hdel _ (hdel-Silent client cache_name k fs) c
  dispatch_hash-ObservedOnce (exists k f) c =
      guarded-ObservedOnce resp_hexists _ (hexists-Silent client cache_name k f) c
  dispatch_hash-ObservedOnce (get_field k f) c =
      guarded-ObservedOnce resp_hget _ (hget-Silent client cache_name k f) c
  dispatch_hash-ObservedOnce (get_all k) c =
      guarded-ObservedOnce resp_hgetall _ (hgetall-Silent client cache_name k) c
  dispatch_hash-ObservedOnce (incr_by k f n) c =
      guarded-ObservedOnce resp_hincrby _ (hincrby-Silent client cache_name k f n) c
  dispatch_hash-ObservedOnce (keys k) c =
      guarded-ObservedOnce resp_hkeys _ (hkeys-Silent client cache_name k) c
  dispatch_hash-ObservedOnce (len k) c =
      guarded-ObservedOnce resp_hlen _ (hlen-Silent client cache_name k) c
  dispatch_hash-ObservedOnce (multi_get k fs) c =
      guarded-ObservedOnce resp_hmget _ (hmget-Silent client cache_name k fs) c
  dispatch_hash-ObservedOnce (set_fields k es) c =
      guarded-ObservedOnce resp_hset _ (hset-Silent client cache_name k es) c
  dispatch_hash-ObservedOnce (values k) c =
      guarded-ObservedOnce resp_hvals _ (hvals-Silent client cache_name k) c

  dispatch_list-ObservedOnce :
      (q : ListRequest) (c : Context State)
      → ObservedOnce (rpc_of_list q) (dispatch_list client cache_name q) c
  unfolding dispatch_list metrics
  dispatch_list-ObservedOnce (index k i) c =
      guarded-ObservedOnce resp_lindex _ (lindex-Silent client cache_name k i) c
  dispatch_list-ObservedOnce (len k) c =
      guarded-ObservedOnce resp_llen _ (llen-Silent client cache_name k) c
  dispatch_list-ObservedOnce (pop k n) c =
      guarded-ObservedOnce resp_lpop _ (lpop-Silent client cache_name k n) c
  dispatch_list-ObservedOnce (range k i j) c =
      guarded-ObservedOnce resp_lrange _ (lrange-Silent client cache_name k i j) c
  dispatch_list-ObservedOnce (push k es) c =
      guarded-ObservedOnce resp_lpush _ (lpush-Silent client cache_name k es) c
  dispatch_list-ObservedOnce (push_back k es) c =
      guarded-ObservedOnce resp_rpush _ (rpush-Silent client cache_name k es) c
  dispatch_list-ObservedOnce (pop_back k n) c =
      guarded-ObservedOnce resp_rpop _ (rpop-Silent client cache_name k n) c

  dispatch_set-ObservedOnce :
      (q : SetRequest) (c : Context State)
      → ObservedOnce (rpc_of_set q) (dispatch_set client cache_name q) c
  unfolding dispatch_set metrics
  dispatch_set-ObservedOnce (add k es) c =
      guarded-ObservedOnce resp_sadd _ (sadd-Silent client cache_name k es) c
  dispatch_set-ObservedOnce (rem k es) c =
      guarded-ObservedOnce resp_srem _ (srem-Silent client cache_name k es) c
  dispatch_set-ObservedOnce (diff ks) c =
      guarded-ObservedOnce resp_sdiff _ (sdiff-Silent client cache_name ks) c
  dispatch_set-ObservedOnce (union ks) c =
      guarded-ObservedOnce resp_sunion _ (sunion-Silent client cache_name ks) c
  dispatch_set-ObservedOnce (intersect ks) c =
      guarded-ObservedOnce resp_sinter _ (sinter-Silent client cache_name ks) c
  dispatch_set-ObservedOnce (members k) c =
      guarded-ObservedOnce resp_smembers _ (smembers-Silent client cache_name k) c
  dispatch_set-ObservedOnce (is_member k e) c =
      guarded-ObservedOnce resp_sismember _ (sismember-Silent client cache_name k e) c

  dispatch_sorted_set-ObservedOnce :
      (q : SortedSetRequest F) (c : Context State)
      → ObservedOnce (rpc_of_sorted_set q) (dispatch_sorted_set client cache_name q) c
  unfolding dispatch_sorted_set metrics
  dispatch_sorted_set-ObservedOnce (cardinality k) c =
      guarded-ObservedOnce resp_zcard _ (zcard-Silent client cache_name k) c
  dispatch_sorted_set-ObservedOnce (increment k s m) c =
      guarded-ObservedOnce resp_zincrby _ (zincrby-Silent client cache_name k s m) c
  dispatch_sorted_set-ObservedOnce (score k m) c =
      guarded-ObservedOnce resp_zscore _ (zscore-Silent client cache_name k m) c
  dispatch_sorted_set-ObservedOnce (multi_score k ms) c =
      guarded-ObservedOnce resp_zmscore _ (zmscore-Silent client cache_name k ms) c
  dispatch_sorted_set-ObservedOnce (remove k ms) c =
      guarded-ObservedOnce resp_zrem _ (zrem-Silent client cache_name k ms) c
  dispatch_sorted_set-ObservedOnce (rank k m b) c =
      guarded-ObservedOnce resp_zrank _ (zrank-Silent client cache_name k m b) c
  dispatch_sorted_set-ObservedOnce (range k i j by args) c =
      guarded-ObservedOnce resp_zrange _ (zrange-Silent client cache_name k i j by args) c
  dispatch_sorted_set-ObservedOnce (add k ms args) c =
      guarded-ObservedOnce resp_zadd _ (zadd-Silent client cache_name k ms args) c
  dispatch_sorted_set-ObservedOnce (reverse_rank k m b) c =
      guarded-ObservedOnce resp_zrevrank _ (zrevrank-Silent client cache_name k m b) c
  dispatch_sorted_set-ObservedOnce (count k low high) c =
      guarded-ObservedOnce resp_zcount _ (zcount-Silent client cache_name k low high) c
  dispatch_sorted_set-ObservedOnce (union_store to ks ws f) c =
      guarded-ObservedOnce resp_zunionstore _ (zunionstore-Silent client cache_name to ks ws f) c

  -- Whatever a request does, it makes exactly one observation if it ends: at its end, behind all that it
  -- counts and logs, under the name of its command and in the histogram of its result. If its handler panics,
  -- which ends the process, it makes none.
  pub dispatch-ObservedOnce :
      (q : Request F) (c : Context State) → ObservedOnce (rpc_of q) (dispatch client cache_name q) c
  unfolding dispatch metrics
  dispatch-ObservedOnce (del ks) c =
      guarded-ObservedOnce resp_del _ (del-Silent client cache_name ks) c
  dispatch-ObservedOnce (get k) c =
      guarded-ObservedOnce resp_get _ (get-Silent client cache_name k) c
  dispatch-ObservedOnce (set k v ttl) c =
      guarded-ObservedOnce resp_set _ (set-Silent client cache_name k v ttl) c
  dispatch-ObservedOnce (hash q) c = dispatch_hash-ObservedOnce q c
  dispatch-ObservedOnce (list q) c = dispatch_list-ObservedOnce q c
  dispatch-ObservedOnce (sets q) c = dispatch_set-ObservedOnce q c
  dispatch-ObservedOnce (sorted_set q) c = dispatch_sorted_set-ObservedOnce q c
  dispatch-ObservedOnce (other command) c =
      guarded-ObservedOnce resp_unimplemented (raise (unsupported_command command))
        (record { at = λ d. (refl, refl) }) c
