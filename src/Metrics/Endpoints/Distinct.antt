-- ===== src/Metrics/Endpoints/Distinct.antt =====
-- No two of the histograms of the calls are the same.
use momento_proxy.Base.{
  ◌≡◌, refl, sym, ap, ◌∙◌, false, String, Bytes, codes, eq_bytes, List, [], ◌∷◌, ◌++◌,
  if◌then◌else◌,
}
use momento_proxy.Metrics.{
  Latency, latency_ok, latency_error, latency_timeout, latency_miss, latency_hit_mcache,
  latency_hit_momento,
}
use momento_proxy.Metrics.Rpc.{new}
use momento_proxy.Metrics.Endpoints.{
  Endpoint, memcached_get, memcached_set, memcached_delete, memcached_unimplemented, resp_del,
  resp_get, resp_hdel, resp_hexists, resp_hget, resp_hgetall, resp_hincrby, resp_hkeys, resp_hlen,
  resp_hmget, resp_hset, resp_hvals, resp_lindex, resp_llen, resp_lpop, resp_lrange, resp_lpush,
  resp_rpush, resp_rpop, resp_set, resp_sadd, resp_srem, resp_sdiff, resp_sunion, resp_sinter,
  resp_smembers, resp_sismember, resp_zcard, resp_zincrby, resp_zscore, resp_zmscore, resp_zrem,
  resp_zrank, resp_zrange, resp_zadd, resp_zrevrank, resp_zcount, resp_zunionstore,
  resp_unimplemented, RpcMetrics, metrics, record_api_call, begin, begin_shared, dimensions,
}

-- The endpoints, by their names.
abbrev named : List (Bytes × Endpoint)
named =
    (codes "memcached_get", memcached_get)
    ∷ (codes "memcached_set", memcached_set)
    ∷ (codes "memcached_delete", memcached_delete)
    ∷ (codes "memcached_unimplemented", memcached_unimplemented)
    ∷ (codes "resp_del", resp_del)
    ∷ (codes "resp_get", resp_get)
    ∷ (codes "resp_hdel", resp_hdel)
    ∷ (codes "resp_hexists", resp_hexists)
    ∷ (codes "resp_hget", resp_hget)
    ∷ (codes "resp_hgetall", resp_hgetall)
    ∷ (codes "resp_hincrby", resp_hincrby)
    ∷ (codes "resp_hkeys", resp_hkeys)
    ∷ (codes "resp_hlen", resp_hlen)
    ∷ (codes "resp_hmget", resp_hmget)
    ∷ (codes "resp_hset", resp_hset)
    ∷ (codes "resp_hvals", resp_hvals)
    ∷ (codes "resp_lindex", resp_lindex)
    ∷ (codes "resp_llen", resp_llen)
    ∷ (codes "resp_lpop", resp_lpop)
    ∷ (codes "resp_lrange", resp_lrange)
    ∷ (codes "resp_lpush", resp_lpush)
    ∷ (codes "resp_rpush", resp_rpush)
    ∷ (codes "resp_rpop", resp_rpop)
    ∷ (codes "resp_set", resp_set)
    ∷ (codes "resp_sadd", resp_sadd)
    ∷ (codes "resp_srem", resp_srem)
    ∷ (codes "resp_sdiff", resp_sdiff)
    ∷ (codes "resp_sunion", resp_sunion)
    ∷ (codes "resp_sinter", resp_sinter)
    ∷ (codes "resp_smembers", resp_smembers)
    ∷ (codes "resp_sismember", resp_sismember)
    ∷ (codes "resp_zcard", resp_zcard)
    ∷ (codes "resp_zincrby", resp_zincrby)
    ∷ (codes "resp_zscore", resp_zscore)
    ∷ (codes "resp_zmscore", resp_zmscore)
    ∷ (codes "resp_zrem", resp_zrem)
    ∷ (codes "resp_zrank", resp_zrank)
    ∷ (codes "resp_zrange", resp_zrange)
    ∷ (codes "resp_zadd", resp_zadd)
    ∷ (codes "resp_zrevrank", resp_zrevrank)
    ∷ (codes "resp_zcount", resp_zcount)
    ∷ (codes "resp_zunionstore", resp_zunionstore)
    ∷ (codes "resp_unimplemented", resp_unimplemented)
    ∷ []

-- What stands under a name in a list, and `x` for other names.
abbrev search : {X : Type 0} → X → Bytes → List (Bytes × X) → X
search x s [] = x
search x s ((t, y) ∷ l) = if eq_bytes s t then y else search x s l

endpoint_of : String → Endpoint
endpoint_of s = search resp_unimplemented (codes s) named

endpoint_of-metrics : (e : Endpoint) → endpoint_of (metrics e).rpc ≡ e
unfolding endpoint_of metrics eq_bytes
endpoint_of-metrics memcached_get = refl
endpoint_of-metrics memcached_set = refl
endpoint_of-metrics memcached_delete = refl
endpoint_of-metrics memcached_unimplemented = refl
endpoint_of-metrics resp_del = refl
endpoint_of-metrics resp_get = refl
endpoint_of-metrics resp_hdel = refl
endpoint_of-metrics resp_hexists = refl
endpoint_of-metrics resp_hget = refl
endpoint_of-metrics resp_hgetall = refl
endpoint_of-metrics resp_hincrby = refl
endpoint_of-metrics resp_hkeys = refl
endpoint_of-metrics resp_hlen = refl
endpoint_of-metrics resp_hmget = refl
endpoint_of-metrics resp_hset = refl
endpoint_of-metrics resp_hvals = refl
endpoint_of-metrics resp_lindex = refl
endpoint_of-metrics resp_llen = refl
endpoint_of-metrics resp_lpop = refl
endpoint_of-metrics resp_lrange = refl
endpoint_of-metrics resp_lpush = refl
endpoint_of-metrics resp_rpush = refl
endpoint_of-metrics resp_rpop = refl
endpoint_of-metrics resp_set = refl
endpoint_of-metrics resp_sadd = refl
endpoint_of-metrics resp_srem = refl
endpoint_of-metrics resp_sdiff = refl
endpoint_of-metrics resp_sunion = refl
endpoint_of-metrics resp_sinter = refl
endpoint_of-metrics resp_smembers = refl
endpoint_of-metrics resp_sismember = refl
endpoint_of-metrics resp_zcard = refl
endpoint_of-metrics resp_zincrby = refl
endpoint_of-metrics resp_zscore = refl
endpoint_of-metrics resp_zmscore = refl
endpoint_of-metrics resp_zrem = refl
endpoint_of-metrics resp_zrank = refl
endpoint_of-metrics resp_zrange = refl
endpoint_of-metrics resp_zadd = refl
endpoint_of-metrics resp_zrevrank = refl
endpoint_of-metrics resp_zcount = refl
endpoint_of-metrics resp_zunionstore = refl
endpoint_of-metrics resp_unimplemented = refl

-- The values of dimensions, one after the other.
abbrev values : List (String × String) → Bytes
values [] = []
values ((k, v) ∷ l) = codes v ++ values l

abbrev latencies : List (Bytes × Latency)
latencies =
    (codes "ok", latency_ok)
    ∷ (codes "error", latency_error)
    ∷ (codes "timeout", latency_timeout)
    ∷ (codes "miss", latency_miss)
    ∷ (codes "hitmcache", latency_hit_mcache)
    ∷ (codes "hitmomento", latency_hit_momento)
    ∷ []

rpc_of : List (String × String) → String
rpc_of [] = ""
rpc_of ((k, v) ∷ l) = v

latency_of : List (String × String) → Latency
latency_of [] = latency_ok
latency_of (d ∷ l) = search latency_ok (values l) latencies

rpc_of-dimensions : (m : RpcMetrics) (l : Latency) → rpc_of (dimensions m l) ≡ m.rpc
unfolding rpc_of dimensions
rpc_of-dimensions m latency_ok = refl
rpc_of-dimensions m latency_error = refl
rpc_of-dimensions m latency_timeout = refl
rpc_of-dimensions m latency_miss = refl
rpc_of-dimensions m latency_hit_mcache = refl
rpc_of-dimensions m latency_hit_momento = refl

latency_of-dimensions : (m : RpcMetrics) (l : Latency) → latency_of (dimensions m l) ≡ l
unfolding latency_of dimensions eq_bytes
latency_of-dimensions m latency_ok = refl
latency_of-dimensions m latency_error = refl
latency_of-dimensions m latency_timeout = refl
latency_of-dimensions m latency_miss = refl
latency_of-dimensions m latency_hit_mcache = refl
latency_of-dimensions m latency_hit_momento = refl

-- The guard of a call knows the name of its endpoint, and has not been observed; and where two
-- histograms have the same dimensions, they are of the same endpoint and of the same outcome.
pub dimensions-distinct :
    (e f : Endpoint) (l m : Latency)
    → (begin_shared e ≡ record { rpc = (metrics e).rpc; recorded = false })
      × (dimensions (metrics e) l ≡ dimensions (metrics f) m → (e ≡ f) × (l ≡ m))
unfolding begin_shared begin record_api_call new
dimensions-distinct e f l m = (
  refl,
  λ h. (
    sym (endpoint_of-metrics e)
        ∙ ap endpoint_of
            (sym (rpc_of-dimensions (metrics e) l) ∙ ap rpc_of h ∙ rpc_of-dimensions (metrics f) m)
        ∙ endpoint_of-metrics f,
    sym (latency_of-dimensions (metrics e) l)
        ∙ ap latency_of h
        ∙ latency_of-dimensions (metrics f) m,
  ),
)
