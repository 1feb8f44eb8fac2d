-- ===== src/Metrics/Endpoints.antt =====
-- src/metrics/proxy.rs and src/metrics/util.rs: the calls that are measured, and their histograms.
pub mod Distinct
use momento_proxy.Base.{String, List, [], ◌∷◌}
use momento_proxy.Metrics.{
  Latency, latency_ok, latency_error, latency_timeout, latency_miss, latency_hit_mcache,
  latency_hit_momento,
}
use momento_proxy.Metrics.Rpc.{RpcCallGuard, new}

-- The handles of `DefaultProxyMetrics`, one for each kind of call.
pub data Endpoint : Type 0 where
  memcached_get memcached_set memcached_delete memcached_unimplemented resp_del resp_get : Endpoint
  resp_hdel resp_hexists resp_hget resp_hgetall resp_hincrby resp_hkeys resp_hlen resp_hmget :
      Endpoint
  resp_hset resp_hvals resp_lindex resp_llen resp_lpop resp_lrange resp_lpush resp_rpush : Endpoint
  resp_rpop resp_set resp_sadd resp_srem resp_sdiff resp_sunion resp_sinter resp_smembers : Endpoint
  resp_sismember resp_zcard resp_zincrby resp_zscore resp_zmscore resp_zrem resp_zrank : Endpoint
  resp_zrange resp_zadd resp_zrevrank resp_zcount resp_zunionstore resp_unimplemented : Endpoint

-- `RpcMetrics`, whose histograms are known by their dimensions.
pub record RpcMetrics : Type 0 where
  pub rpc : String

-- The names that `DefaultProxyMetrics::new` gives.
unfoldable pub metrics : Endpoint → RpcMetrics
metrics memcached_get = record { rpc = "memcached_get" }
metrics memcached_set = record { rpc = "memcached_set" }
metrics memcached_delete = record { rpc = "memcached_delete" }
metrics memcached_unimplemented = record { rpc = "memcached_unimplemented" }
metrics resp_del = record { rpc = "resp_del" }
metrics resp_get = record { rpc = "resp_get" }
metrics resp_hdel = record { rpc = "resp_hdel" }
metrics resp_hexists = record { rpc = "resp_hexists" }
metrics resp_hget = record { rpc = "resp_hget" }
metrics resp_hgetall = record { rpc = "resp_hgetall" }
metrics resp_hincrby = record { rpc = "resp_hincrby" }
metrics resp_hkeys = record { rpc = "resp_hkeys" }
metrics resp_hlen = record { rpc = "resp_hlen" }
metrics resp_hmget = record { rpc = "resp_hmget" }
metrics resp_hset = record { rpc = "resp_hset" }
metrics resp_hvals = record { rpc = "resp_hvals" }
metrics resp_lindex = record { rpc = "resp_lindex" }
metrics resp_llen = record { rpc = "resp_llen" }
metrics resp_lpop = record { rpc = "resp_lpop" }
metrics resp_lrange = record { rpc = "resp_lrange" }
metrics resp_lpush = record { rpc = "resp_lpush" }
metrics resp_rpush = record { rpc = "resp_rpush" }
metrics resp_rpop = record { rpc = "resp_rpop" }
metrics resp_set = record { rpc = "resp_set" }
metrics resp_sadd = record { rpc = "resp_sadd" }
metrics resp_srem = record { rpc = "resp_srem" }
metrics resp_sdiff = record { rpc = "resp_sdiff" }
metrics resp_sunion = record { rpc = "resp_sunion" }
metrics resp_sinter = record { rpc = "resp_sinter" }
metrics resp_smembers = record { rpc = "resp_smembers" }
metrics resp_sismember = record { rpc = "resp_sismember" }
metrics resp_zcard = record { rpc = "resp_zcard" }
metrics resp_zincrby = record { rpc = "resp_zincrby" }
metrics resp_zscore = record { rpc = "resp_zscore" }
metrics resp_zmscore = record { rpc = "resp_zmscore" }
metrics resp_zrem = record { rpc = "resp_zrem" }
metrics resp_zrank = record { rpc = "resp_zrank" }
metrics resp_zrange = record { rpc = "resp_zrange" }
metrics resp_zadd = record { rpc = "resp_zadd" }
metrics resp_zrevrank = record { rpc = "resp_zrevrank" }
metrics resp_zcount = record { rpc = "resp_zcount" }
metrics resp_zunionstore = record { rpc = "resp_zunionstore" }
metrics resp_unimplemented = record { rpc = "resp_unimplemented" }

-- `RpcMetrics::record_api_call`
unfoldable pub record_api_call : RpcMetrics → RpcCallGuard
record_api_call m = new m.rpc

-- The methods `begin_..` of `DefaultProxyMetrics`.
unfoldable pub begin : Endpoint → RpcCallGuard
unfolding metrics record_api_call
begin e = record_api_call (metrics e)

-- Those of `Arc<DefaultProxyMetrics>`, which pass the call on.
unfoldable pub begin_shared : Endpoint → RpcCallGuard
unfolding begin
begin_shared e = begin e

-- The dimensions of a histogram, beside its name `latency`.
unfoldable pub dimensions : RpcMetrics → Latency → List (String × String)
dimensions m latency_ok = ("rpc", m.rpc) ∷ ("result", "ok") ∷ []
dimensions m latency_error = ("rpc", m.rpc) ∷ ("result", "error") ∷ []
dimensions m latency_timeout = ("rpc", m.rpc) ∷ ("result", "timeout") ∷ []
dimensions m latency_miss = ("rpc", m.rpc) ∷ ("result", "miss") ∷ []
dimensions m latency_hit_mcache = ("rpc", m.rpc) ∷ ("result", "hit") ∷ ("source", "mcache") ∷ []
dimensions m latency_hit_momento = ("rpc", m.rpc) ∷ ("result", "hit") ∷ ("source", "momento") ∷ []
