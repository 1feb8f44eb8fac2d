-- ===== src/Resp/Strings.antt =====
-- The commands of src/protocol/resp on plain keys: del, get, set.
pub mod Counts
pub mod Replies
pub mod Quiet
use momento_proxy.Base.{
  ℕ, ◌/◌, ◌%◌, ◌*◌, ◌^◌, ◌-◌, Option, none, some, List, [], ◌∷◌, ◌++◌, map, Bytes, String, codes,
  length, ltb, if◌then◌else◌,
}
use momento_proxy.Base.Int.{ℤ, pos, negsuc}
use momento_proxy.Base.Exec.{Result, ok, err, pure, lift, ◌>>=◌, ◌>>◌, for_each}
use momento_proxy.Error.{ProxyError, custom, Lookup, hit, miss}
use momento_proxy.Client.{Floats, Client}
use momento_proxy.Metrics.{Method, calls, ex, stored, get_key, get_key_hit, get_key_miss}
use momento_proxy.Klog.{Status, klog_1, klog_set}
use momento_proxy.Context.{Handler, increment, klog, klogs, write, call, or_return}
use momento_proxy.Resp.Utils.{
  line_end, bulk_header, integer_line, nil_line, update_method_metrics, command,
}

-- `protocol_resp::ExpireTime`: seconds, milliseconds, or one of its other forms.
pub data ExpireTime : Type 0 where
  seconds milliseconds : ℕ → ExpireTime
  other : ExpireTime

-- `n as i32`
unfoldable pub as_i32 : ℕ → ℤ
as_i32 n = let m = n % 2 ^ 32 in if ltb m (2 ^ 31) then pos m else negsuc (2 ^ 32 - 1 - m)

at_least_one : ℕ → ℕ
at_least_one n = if ltb n 1 then 1 else n

module _ {F : Floats} (client : Client F) (cache_name : String) where
  open client use {State, MomentoError}

  abbrev Action : Type 0
  Action = Handler State MomentoError (Unit {0})

  -- The metrics wrap each key by itself; the error logs name `hdel`.
  del_key : Bytes → Action
  del_key key =
      command (calls Method.del) (ex Method.del) (client.delete cache_name key)
        (klog_1 "hdel" key Status.server_error 0 ∷ []) (klog_1 "hdel" key Status.timeout 0 ∷ [])
        λ _. pure tt

  pub del : List Bytes → Action
  unfolding del_key
  del keys = do
    for_each keys del_key
    write (integer_line (length keys))
    klogs (map (λ key. klog_1 "del" key Status.deleted 0) keys)

  get_reply : Bytes → Lookup Bytes → Action
  get_reply key (hit value) = do
    increment get_key_hit
    write (bulk_header (length value))
    write value
    write line_end
    klog (klog_1 "get" key Status.hit (length value))
  get_reply key miss = do
    increment get_key_miss
    write nil_line
    klog (klog_1 "get" key Status.miss 0)

  -- The future that GET runs under its metrics.
  get_value : Bytes → Action
  unfolding get_reply
  get_value key = do
    increment get_key
    outcome ← call (client.get cache_name key)
    response ←
        or_return (do increment (ex Method.get); klog (klog_1 "get" key Status.server_error 0))
          (do increment (ex Method.get); klog (klog_1 "get" key Status.timeout 0)) outcome
    get_reply key response

  pub get : Bytes → Action
  unfolding get_value
  get key = update_method_metrics (calls Method.get) (ex Method.get) (get_value key)

  -- The TTL in milliseconds, which only the log shows.
  pub set_ttl_millis : Option ExpireTime → Result (ProxyError MomentoError) (Option ℕ)
  unfolding at_least_one
  set_ttl_millis none = ok none
  set_ttl_millis (some (seconds v)) = ok (some (v * 1000))
  set_ttl_millis (some (milliseconds v)) = ok (some (at_least_one (v / 1000)))
  set_ttl_millis (some other) = err (custom "expire time")

  millis_or_zero : Option ℕ → ℕ
  millis_or_zero none = 0
  millis_or_zero (some n) = n

  set_log : Bytes → Bytes → Option ℕ → Status → ℕ → Bytes
  unfolding millis_or_zero
  set_log key value ttl status len =
      klog_set key 0 (as_i32 (millis_or_zero ttl)) (length value) status len

  -- The call of SET and its reply, for the TTL that is logged.
  set_value : Bytes → Bytes → Option ℕ → Action
  unfolding set_log
  set_value key value ttl = do
    outcome ← call (client.set cache_name key value)
    or_return (klog (set_log key value ttl Status.server_error 0))
        (klog (set_log key value ttl Status.timeout 0)) outcome
    increment (stored Method.set)
    klog (set_log key value ttl Status.stored 8)
    write (codes "+OK" ++ line_end)

  pub set : Bytes → Bytes → Option ExpireTime → Action
  unfolding set_ttl_millis set_value
  set key value expire_time =
      update_method_metrics (calls Method.set) (ex Method.set)
        (lift (set_ttl_millis expire_time) >>= set_value key value)
