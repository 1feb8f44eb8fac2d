-- ===== src/Metrics.antt =====
-- The counters of src/metrics/mod.rs and of the protocol libraries, by name, and what a request
-- leaves behind in counters, latency histograms and the command log.
pub mod Rpc
pub mod Connection
pub mod Endpoints
pub mod Listing
pub mod Observations
pub mod Export
use momento_proxy.Base.{
  ℕ, ◌+◌, ◌*◌, ◌≡◌, refl, Bool, true, false, List, [], ◌∷◌, ◌++◌, Bytes, String, ◌==◌,
  if◌then◌else◌, arith,
}

-- The groups of counters, one to a protocol method: `HGET`, `HGET_EX`, `HGET_HIT`, ...
pub data Method : Type 0 where
  get set delete del : Method
  hdel hexists hget hgetall hincrby hkeys hlen hmget hset hvals : Method
  lindex llen lpop lrange lpush rpush rpop : Method
  sadd srem sdiff sunion sinter smembers sismember : Method
  zcard zincrby zscore zmscore zrem zrank zrange zadd zrevrank zcount zunionstore : Method

pub data Counter : Type 0 where
  calls ex hits misses stored deleted : Method → Counter
  get_key get_key_hit get_key_miss hmget_field hmget_field_hit hmget_field_miss : Counter
  backend_request backend_ex backend_ex_timeout : Counter
  session_send session_send_ex session_send_byte tcp_send_byte : Counter
  session_recv session_recv_ex session_recv_byte tcp_recv_byte : Counter

pub data Latency : Type 0 where
  latency_ok latency_error latency_timeout latency_miss : Latency
  latency_hit_mcache latency_hit_momento : Latency

-- `add c n` is `c.add(n)`, `logged` a line of the command log, `observed` an observation of one of
-- the histograms of an rpc.
pub data Event : Type 0 where
  add : Counter → ℕ → Event
  logged : Bytes → Event
  observed : String → Latency → Event

method_number : Method → ℕ
method_number Method.get = 0
method_number Method.set = 1
method_number Method.delete = 2
method_number Method.del = 3
method_number Method.hdel = 4
method_number Method.hexists = 5
method_number Method.hget = 6
method_number Method.hgetall = 7
method_number Method.hincrby = 8
method_number Method.hkeys = 9
method_number Method.hlen = 10
method_number Method.hmget = 11
method_number Method.hset = 12
method_number Method.hvals = 13
method_number Method.lindex = 14
method_number Method.llen = 15
method_number Method.lpop = 16
method_number Method.lrange = 17
method_number Method.lpush = 18
method_number Method.rpush = 19
method_number Method.rpop = 20
method_number Method.sadd = 21
method_number Method.srem = 22
method_number Method.sdiff = 23
method_number Method.sunion = 24
method_number Method.sinter = 25
method_number Method.smembers = 26
method_number Method.sismember = 27
method_number Method.zcard = 28
method_number Method.zincrby = 29
method_number Method.zscore = 30
method_number Method.zmscore = 31
method_number Method.zrem = 32
method_number Method.zrank = 33
method_number Method.zrange = 34
method_number Method.zadd = 35
method_number Method.zrevrank = 36
method_number Method.zcount = 37
method_number Method.zunionstore = 38

-- A number for each counter, different for different counters.
unfoldable pub counter_number : Counter → ℕ
unfolding method_number
counter_number (calls m) = method_number m * 6
counter_number (ex m) = method_number m * 6 + 1
counter_number (hits m) = method_number m * 6 + 2
counter_number (misses m) = method_number m * 6 + 3
counter_number (stored m) = method_number m * 6 + 4
counter_number (deleted m) = method_number m * 6 + 5
counter_number get_key = 300
counter_number get_key_hit = 301
counter_number get_key_miss = 302
counter_number hmget_field = 303
counter_number hmget_field_hit = 304
counter_number hmget_field_miss = 305
counter_number backend_request = 306
counter_number backend_ex = 307
counter_number backend_ex_timeout = 308
counter_number session_send = 309
counter_number session_send_ex = 310
counter_number session_send_byte = 311
counter_number tcp_send_byte = 312
counter_number session_recv = 313
counter_number session_recv_ex = 314
counter_number session_recv_byte = 315
counter_number tcp_recv_byte = 316

abbrev pub amount : Counter → Event → ℕ
amount c (add d n) = if counter_number c == counter_number d then n else 0
amount c _ = 0

-- What the events add to a counter.
abbrev pub total : Counter → List Event → ℕ
total c [] = 0
total c (e ∷ es) = amount c e + total c es

pub total-append : (c : Counter) (es fs : List Event) → total c (es ++ fs) ≡ total c es + total c fs
total-append c [] fs = omega arith
total-append c (e ∷ es) fs = omega (arith, total-append c es fs)
