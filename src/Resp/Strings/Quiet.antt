-- ===== src/Resp/Strings/Quiet.antt =====
-- The commands on plain keys leave the guard of their call alone.
use momento_proxy.Base.{ℕ, refl, Option, List, ◌++◌, Bytes, String, codes}
use momento_proxy.Base.Exec.{Result, lift, ◌>>=◌, ◌>>◌, for_each}
use momento_proxy.Error.{ProxyError, Lookup, hit, miss}
use momento_proxy.Client.{Floats, Client}
use momento_proxy.Context.{or_return, increment, klog, write}
use momento_proxy.Metrics.{get_key, Method, ex, stored}
use momento_proxy.Klog.{Status, klog_1}
use momento_proxy.Metrics.Observations.{counts}
use momento_proxy.Resp.Utils.{line_end}
use momento_proxy.Resp.Silent.{
  Silent, bind-Silent, call-Silent, or_return-Silent, for_each-Silent, method-Silent, klog-Silent,
  counted-Silent, command-Silent,
}
use momento_proxy.Resp.Strings.{
  ExpireTime, del, del_key, get, get_value, get_reply, set, set_value, set_log, set_ttl_millis,
}

module _ {F : Floats} (client : Client F) (cache_name : String) where
  open client use {State, MomentoError}

  pub del-Silent : (keys : List Bytes) → Silent (del client cache_name keys)
  unfolding del del_key
  del-Silent keys =
      bind-Silent (for_each keys (del_key client cache_name)) _
        (for_each-Silent keys _
          (λ key. command-Silent _ _ _ _ _ _ (λ a. record { at = λ c. (refl, refl) })))
        (λ a. record { at = λ c. (refl, omega counts) })

  get_reply-Silent : (key : Bytes) (r : Lookup Bytes) → Silent (get_reply client cache_name key r)
  unfolding get_reply
  get_reply-Silent key (hit v) = record { at = λ c. (refl, omega counts) }
  get_reply-Silent key miss = record { at = λ c. (refl, omega counts) }

  get_value-Silent : (key : Bytes) → Silent (get_value client cache_name key)
  unfolding get_value
  get_value-Silent key =
      bind-Silent (increment get_key) _ (record { at = λ c. (refl, omega counts) })
        (λ a. call-Silent (client.get cache_name key) _ λ o.
          bind-Silent
            (or_return (increment (ex Method.get) >> klog (klog_1 "get" key Status.server_error 0))
              (increment (ex Method.get) >> klog (klog_1 "get" key Status.timeout 0)) o)
            (get_reply client cache_name key)
            (or_return-Silent _ _ o
              (counted-Silent (ex Method.get) (klog_1 "get" key Status.server_error 0))
              (counted-Silent (ex Method.get) (klog_1 "get" key Status.timeout 0)))
            (get_reply-Silent key))

  pub get-Silent : (key : Bytes) → Silent (get client cache_name key)
  unfolding get
  get-Silent key = method-Silent _ _ (get_value client cache_name key) (get_value-Silent key)

  set_value-Silent :
      (key value : Bytes) (ttl : Option ℕ) → Silent (set_value client cache_name key value ttl)
  unfolding set_value
  set_value-Silent key value ttl = call-Silent (client.set cache_name key value) _ λ o.
      bind-Silent
        (or_return (klog (set_log client cache_name key value ttl Status.server_error 0))
          (klog (set_log client cache_name key value ttl Status.timeout 0)) o)
        (λ _.
          increment (stored Method.set)
          >> (klog (set_log client cache_name key value ttl Status.stored 8)
              >> write (codes "+OK" ++ line_end)))
        (or_return-Silent _ _ o
          (klog-Silent (set_log client cache_name key value ttl Status.server_error 0))
          (klog-Silent (set_log client cache_name key value ttl Status.timeout 0)))
        (λ a. record { at = λ c. (refl, omega counts) })

  set_checked-Silent :
      (key value : Bytes) (r : Result (ProxyError MomentoError) (Option ℕ))
      → Silent (lift r >>= set_value client cache_name key value)
  set_checked-Silent key value r =
      bind-Silent (lift r) _ (record { at = λ c. (refl, refl) }) (set_value-Silent key value)

  pub set-Silent :
      (key value : Bytes) (ttl : Option ExpireTime) → Silent (set client cache_name key value ttl)
  unfolding set
  set-Silent key value ttl =
      method-Silent _ _
        (lift (set_ttl_millis client cache_name ttl) >>= set_value client cache_name key value)
        (set_checked-Silent key value (set_ttl_millis client cache_name ttl))
