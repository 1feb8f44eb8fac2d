-- ===== src/Frontend/Dispatch.antt =====
-- The requests that `handle_resp_client` of src/frontend.rs knows, and the handler of each.
pub mod Guard
pub mod Names
pub mod Observed
pub mod Hashes
pub mod Scores
pub mod Replies
pub mod Elements
pub mod Members
use momento_proxy.Base.{ℕ, Bool, Option, List, Bytes, String}
use momento_proxy.Base.Int.{ℤ}
use momento_proxy.Base.Exec.{Exec, Result, panicked, raise}
use momento_proxy.Error.{ProxyError, unsupported_command}
use momento_proxy.Client.{Floats, Client, AggregateFunction}
use momento_proxy.Metrics.{Event}
use momento_proxy.Metrics.Endpoints.{
  Endpoint, begin_shared, resp_del, resp_get, resp_hdel, resp_hexists, resp_hget, resp_hgetall,
  resp_hincrby, resp_hkeys, resp_hlen, resp_hmget, resp_hset, resp_hvals, resp_lindex, resp_llen,
  resp_lpop, resp_lpush, resp_lrange, resp_rpop, resp_rpush, resp_sadd, resp_sdiff, resp_set,
  resp_sinter, resp_sismember, resp_smembers, resp_srem, resp_sunion, resp_unimplemented, resp_zadd,
  resp_zcard, resp_zcount, resp_zincrby, resp_zmscore, resp_zrange, resp_zrank, resp_zrem,
  resp_zrevrank, resp_zscore, resp_zunionstore,
}
use momento_proxy.Metrics.Rpc
use momento_proxy.Metrics.Rpc.{RpcCallGuard, complete, drop_guard}
use momento_proxy.Context.{Context, Handler, observe}
use momento_proxy.Resp.Strings
use momento_proxy.Resp.Strings.{ExpireTime}
use momento_proxy.Resp.Hash
use momento_proxy.Resp.Lists
use momento_proxy.Resp.Sets
use momento_proxy.Resp.SortedSets
use momento_proxy.Resp.SortedSets.Ranges
use momento_proxy.Resp.SortedSets.Ranges.{RangeType, RangeArgs}
use momento_proxy.Resp.SortedSets.Stores
use momento_proxy.Resp.SortedSets.Stores.{AddArgs}

pub data HashRequest : Type 0 where
  delete_fields multi_get : Bytes → List Bytes → HashRequest
  exists get_field : Bytes → Bytes → HashRequest
  get_all keys len values : Bytes → HashRequest
  incr_by : Bytes → Bytes → ℤ → HashRequest
  set_fields : Bytes → List (Bytes × Bytes) → HashRequest

pub data ListRequest : Type 0 where
  index : Bytes → ℤ → ListRequest
  len : Bytes → ListRequest
  pop pop_back : Bytes → Option ℕ → ListRequest
  range : Bytes → ℤ → ℤ → ListRequest
  push push_back : Bytes → List Bytes → ListRequest

pub data SetRequest : Type 0 where
  add rem : Bytes → List Bytes → SetRequest
  diff union intersect : List Bytes → SetRequest
  members : Bytes → SetRequest
  is_member : Bytes → Bytes → SetRequest

pub data SortedSetRequest (F : Floats) : Type 0 where
  cardinality : Bytes → SortedSetRequest F
  increment : Bytes → F.F64 → Bytes → SortedSetRequest F
  score : Bytes → Bytes → SortedSetRequest F
  multi_score remove : Bytes → List Bytes → SortedSetRequest F
  rank reverse_rank : Bytes → Bytes → Bool → SortedSetRequest F
  range : Bytes → Bytes → Bytes → RangeType → RangeArgs → SortedSetRequest F
  add : Bytes → List (F.F64 × Bytes) → AddArgs → SortedSetRequest F
  count : Bytes → F.F64 × Bool → F.F64 × Bool → SortedSetRequest F
  union_store :
      Bytes → List Bytes → Option (List Bytes) → Option AggregateFunction → SortedSetRequest F

-- `protocol_resp::Request`; `other` is a request that the proxy has no handler for, by its command.
pub data Request (F : Floats) : Type 0 where
  del : List Bytes → Request F
  get : Bytes → Request F
  set : Bytes → Bytes → Option ExpireTime → Request F
  hash : HashRequest → Request F
  list : ListRequest → Request F
  sets : SetRequest → Request F
  sorted_set : SortedSetRequest F → Request F
  other : String → Request F

module _ {S E : Type 0} where
  -- What the guard does after the future has ended, and when it is dropped. A panic ends the process before
  -- that, since the hook of `main` exits.
  pub finish_guard :
      Result (ProxyError E) (Unit {0}) × Context S → Result (ProxyError E) (Unit {0}) × Context S
  finish_guard (panicked, c) = (panicked, c)
  finish_guard (r, c) =
      let c' = (observe {E = E} (complete r) c).1 in (r, (observe {E = E} drop_guard c').1)

  unfoldable pub with_rpc_call_guard :
      RpcCallGuard → Handler S E (Unit {0}) → Handler S E (Unit {0})
  unfolding finish_guard
  with_rpc_call_guard recorder fut c = finish_guard (fut (record c { recorder = recorder }))

module _ {F : Floats} (client : Client F) (cache_name : String) where
  open client use {State, MomentoError}

  abbrev pub Action : Type 0
  Action = Handler State MomentoError (Unit {0})

  -- `with_rpc_call_guard(proxy_metrics.begin_resp_..(), ..)`
  pub guarded : Endpoint → Action → Action
  guarded rpc = with_rpc_call_guard (begin_shared rpc)

  unfoldable pub dispatch_hash : HashRequest → Action
  unfolding guarded
  dispatch_hash (delete_fields key fields) =
      guarded resp_hdel (Hash.hdel client cache_name key fields)
  dispatch_hash (exists key field) = guarded resp_hexists (Hash.hexists client cache_name key field)
  dispatch_hash (get_field key field) = guarded resp_hget (Hash.hget client cache_name key field)
  dispatch_hash (get_all key) = guarded resp_hgetall (Hash.hgetall client cache_name key)
  dispatch_hash (incr_by key field n) =
      guarded resp_hincrby (Hash.hincrby client cache_name key field n)
  dispatch_hash (keys key) = guarded resp_hkeys (Hash.hkeys client cache_name key)
  dispatch_hash (len key) = guarded resp_hlen (Hash.hlen client cache_name key)
  dispatch_hash (multi_get key fields) =
      guarded resp_hmget (Hash.hmget client cache_name key fields)
  dispatch_hash (set_fields key entries) =
      guarded resp_hset (Hash.hset client cache_name key entries)
  dispatch_hash (values key) = guarded resp_hvals (Hash.hvals client cache_name key)

  unfoldable pub dispatch_list : ListRequest → Action
  unfolding guarded
  dispatch_list (index key i) = guarded resp_lindex (Lists.lindex client cache_name key i)
  dispatch_list (len key) = guarded resp_llen (Lists.llen client cache_name key)
  dispatch_list (pop key n) = guarded resp_lpop (Lists.lpop client cache_name key n)
  dispatch_list (range key i j) = guarded resp_lrange (Lists.lrange client cache_name key i j)
  dispatch_list (push key es) = guarded resp_lpush (Lists.lpush client cache_name key es)
  dispatch_list (push_back key es) = guarded resp_rpush (Lists.rpush client cache_name key es)
  dispatch_list (pop_back key n) = guarded resp_rpop (Lists.rpop client cache_name key n)

  unfoldable pub dispatch_set : SetRequest → Action
  unfolding guarded
  dispatch_set (add key es) = guarded resp_sadd (Sets.sadd client cache_name key es)
  dispatch_set (rem key es) = guarded resp_srem (Sets.srem client cache_name key es)
  dispatch_set (diff ks) = guarded resp_sdiff (Sets.sdiff client cache_name ks)
  dispatch_set (union ks) = guarded resp_sunion (Sets.sunion client cache_name ks)
  dispatch_set (intersect ks) = guarded resp_sinter (Sets.sinter client cache_name ks)
  dispatch_set (members key) = guarded resp_smembers (Sets.smembers client cache_name key)
  dispatch_set (is_member key e) = guarded resp_sismember (Sets.sismember client cache_name key e)

  unfoldable pub dispatch_sorted_set : SortedSetRequest F → Action
  unfolding guarded
  dispatch_sorted_set (cardinality key) =
      guarded resp_zcard (SortedSets.zcard client cache_name key)
  dispatch_sorted_set (increment key s m) =
      guarded resp_zincrby (SortedSets.zincrby client cache_name key s m)
  dispatch_sorted_set (score key m) =
      guarded resp_zscore (SortedSets.zscore client cache_name key m)
  dispatch_sorted_set (multi_score key ms) =
      guarded resp_zmscore (SortedSets.zmscore client cache_name key ms)
  dispatch_sorted_set (remove key ms) = guarded resp_zrem (Stores.zrem client cache_name key ms)
  dispatch_sorted_set (rank key m with_score) =
      guarded resp_zrank (Ranges.zrank client cache_name key m with_score)
  dispatch_sorted_set (range key i j by args) =
      guarded resp_zrange (Ranges.zrange client cache_name key i j by args)
  dispatch_sorted_set (add key ms args) =
      guarded resp_zadd (Stores.zadd client cache_name key ms args)
  dispatch_sorted_set (reverse_rank key m with_score) =
      guarded resp_zrevrank (Ranges.zrevrank client cache_name key m with_score)
  dispatch_sorted_set (count key low high) =
      guarded resp_zcount (SortedSets.zcount client cache_name key low high)
  dispatch_sorted_set (union_store to ks weights f) =
      guarded resp_zunionstore (Stores.zunionstore client cache_name to ks weights f)

  unfoldable pub dispatch : Request F → Action
  unfolding guarded dispatch_hash dispatch_list dispatch_set dispatch_sorted_set
  dispatch (del ks) = guarded resp_del (Strings.del client cache_name ks)
  dispatch (get key) = guarded resp_get (Strings.get client cache_name key)
  dispatch (set key value ttl) = guarded resp_set (Strings.set client cache_name key value ttl)
  dispatch (hash r) = dispatch_hash r
  dispatch (list r) = dispatch_list r
  dispatch (sets r) = dispatch_set r
  dispatch (sorted_set r) = dispatch_sorted_set r
  dispatch (other command) = guarded resp_unimplemented (raise (unsupported_command command))
