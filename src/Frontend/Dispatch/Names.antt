-- ===== src/Frontend/Dispatch/Names.antt =====
-- The name under which each request is measured: that of its command.
use momento_proxy.Base.{String}
use momento_proxy.Client.{Floats}
use momento_proxy.Frontend.Dispatch.{
  Request, del, get, set, hash, list, sets, sorted_set, other, HashRequest, delete_fields, exists,
  get_field, get_all, incr_by, keys, len, multi_get, set_fields, values, ListRequest, index, pop,
  range, push, push_back, pop_back, SetRequest, add, rem, diff, union, intersect, members,
  is_member, SortedSetRequest, cardinality, increment, score, multi_score, remove, rank,
  reverse_rank, count, union_store,
}

abbrev pub rpc_of_hash : HashRequest → String
rpc_of_hash (delete_fields _ _) = "resp_hdel"
rpc_of_hash (exists _ _) = "resp_hexists"
rpc_of_hash (get_field _ _) = "resp_hget"
rpc_of_hash (get_all _) = "resp_hgetall"
rpc_of_hash (incr_by _ _ _) = "resp_hincrby"
rpc_of_hash (keys _) = "resp_hkeys"
rpc_of_hash (len _) = "resp_hlen"
rpc_of_hash (multi_get _ _) = "resp_hmget"
rpc_of_hash (set_fields _ _) = "resp_hset"
rpc_of_hash (values _) = "resp_hvals"

abbrev pub rpc_of_list : ListRequest → String
rpc_of_list (index _ _) = "resp_lindex"
rpc_of_list (len _) = "resp_llen"
rpc_of_list (pop _ _) = "resp_lpop"
rpc_of_list (range _ _ _) = "resp_lrange"
rpc_of_list (push _ _) = "resp_lpush"
rpc_of_list (push_back _ _) = "resp_rpush"
rpc_of_list (pop_back _ _) = "resp_rpop"

abbrev pub rpc_of_set : SetRequest → String
rpc_of_set (add _ _) = "resp_sadd"
rpc_of_set (rem _ _) = "resp_srem"
rpc_of_set (diff _) = "resp_sdiff"
rpc_of_set (union _) = "resp_sunion"
rpc_of_set (intersect _) = "resp_sinter"
rpc_of_set (members _) = "resp_smembers"
rpc_of_set (is_member _ _) = "resp_sismember"

module _ {F : Floats} where
  abbrev pub rpc_of_sorted_set : SortedSetRequest F → String
  rpc_of_sorted_set (cardinality _) = "resp_zcard"
  rpc_of_sorted_set (increment _ _ _) = "resp_zincrby"
  rpc_of_sorted_set (score _ _) = "resp_zscore"
  rpc_of_sorted_set (multi_score _ _) = "resp_zmscore"
  rpc_of_sorted_set (remove _ _) = "resp_zrem"
  rpc_of_sorted_set (rank _ _ _) = "resp_zrank"
  rpc_of_sorted_set (range _ _ _ _ _) = "resp_zrange"
  rpc_of_sorted_set (add _ _ _) = "resp_zadd"
  rpc_of_sorted_set (reverse_rank _ _ _) = "resp_zrevrank"
  rpc_of_sorted_set (count _ _ _) = "resp_zcount"
  rpc_of_sorted_set (union_store _ _ _ _) = "resp_zunionstore"

  abbrev pub rpc_of : Request F → String
  rpc_of (del _) = "resp_del"
  rpc_of (get _) = "resp_get"
  rpc_of (set _ _ _) = "resp_set"
  rpc_of (hash q) = rpc_of_hash q
  rpc_of (list q) = rpc_of_list q
  rpc_of (sets q) = rpc_of_set q
  rpc_of (sorted_set q) = rpc_of_sorted_set q
  rpc_of (other _) = "resp_unimplemented"
