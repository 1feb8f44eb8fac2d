-- ===== src/Resp/Sets/Quiet.antt =====
-- The set commands leave the guard of their call alone.
use momento_proxy.Base.{refl, Bool, true, false, List, [], ◌∷◌, Bytes, String, length}
use momento_proxy.Base.Exec.{◌>>=◌}
use momento_proxy.Error.{Lookup, hit, miss}
use momento_proxy.Client.{Floats, Client}
use momento_proxy.Context.{or_raise, write}
use momento_proxy.Metrics.Observations.{counts}
use momento_proxy.Resp.Utils.{array_header}
use momento_proxy.Resp.Silent.{
  Silent, bind-Silent, call-Silent, or_raise-Silent, method-Silent, command-Silent,
  write_unterminated-Silent,
}
use momento_proxy.Resp.Sets.{
  sadd, srem, set_reply, write_set, smembers, smembers_reply, sismember, sismember_reply,
  sismember_found, member_of, union_keys, union_step, diff_step, inter_step, sunion, narrow_keys,
  sdiff, sdiff_keys, sdiff_reply, sinter, sinter_keys, sinter_reply,
}

module _ {F : Floats} (client : Client F) (cache_name : String) where
  open client use {State, MomentoError}

  pub sadd-Silent : (key : Bytes) (es : List Bytes) → Silent (sadd client cache_name key es)
  unfolding sadd
  sadd-Silent key es = command-Silent _ _ _ _ _ _ (λ a. record { at = λ c. (refl, refl) })

  pub srem-Silent : (key : Bytes) (es : List Bytes) → Silent (srem client cache_name key es)
  unfolding srem
  srem-Silent key es = command-Silent _ _ _ _ _ _ (λ a. record { at = λ c. (refl, refl) })

  write_set-Silent : (set : List Bytes) → Silent (write_set client cache_name set)
  unfolding write_set
  write_set-Silent set =
      bind-Silent (write (array_header (length set))) _ (record { at = λ c. (refl, refl) })
        (λ a. write_unterminated-Silent set)

  set_reply-Silent : (set : List Bytes) → Silent (set_reply client cache_name set)
  unfolding set_reply
  set_reply-Silent set = write_set-Silent (client.iterate set)

  smembers_reply-Silent :
      (key : Bytes) (r : Lookup (List Bytes)) → Silent (smembers_reply client cache_name key r)
  unfolding smembers_reply
  smembers_reply-Silent key (hit values) =
      bind-Silent (set_reply client cache_name values) _ (set_reply-Silent values)
        (λ a. record { at = λ c. (refl, omega counts) })
  smembers_reply-Silent key miss =
      bind-Silent (write_set client cache_name []) _ (write_set-Silent [])
        (λ a. record { at = λ c. (refl, omega counts) })

  pub smembers-Silent : (key : Bytes) → Silent (smembers client cache_name key)
  unfolding smembers
  smembers-Silent key = command-Silent _ _ _ _ _ _ (smembers_reply-Silent key)

  sismember_found-Silent : (b : Bool) → Silent (sismember_found client cache_name b)
  unfolding sismember_found
  sismember_found-Silent true = record { at = λ c. (refl, omega counts) }
  sismember_found-Silent false = record { at = λ c. (refl, omega counts) }

  sismember_reply-Silent :
      (key field : Bytes) (r : Lookup (List Bytes))
      → Silent (sismember_reply client cache_name key field r)
  unfolding sismember_reply
  sismember_reply-Silent key field r =
      bind-Silent (sismember_found client cache_name (member_of client cache_name field r)) _
        (sismember_found-Silent (member_of client cache_name field r))
        (λ a. record { at = λ c. (refl, omega counts) })

  pub sismember-Silent : (key field : Bytes) → Silent (sismember client cache_name key field)
  unfolding sismember
  sismember-Silent key field = command-Silent _ _ _ _ _ _ (sismember_reply-Silent key field)

  union_keys-Silent : (set keys : List Bytes) → Silent (union_keys client cache_name set keys)
  unfolding union_keys
  union_keys-Silent set [] = record { at = λ c. (refl, refl) }
  union_keys-Silent set (key ∷ keys) = call-Silent (client.set_fetch cache_name key) _ λ o.
      bind-Silent (or_raise o) (λ r. union_keys client cache_name (union_step set r) keys)
        (or_raise-Silent o) (λ r. union_keys-Silent (union_step set r) keys)

  pub sunion-Silent : (keys : List Bytes) → Silent (sunion client cache_name keys)
  unfolding sunion
  sunion-Silent keys =
      method-Silent _ _ (union_keys client cache_name [] keys >>= set_reply client cache_name) (
        bind-Silent (union_keys client cache_name [] keys) (set_reply client cache_name)
          (union_keys-Silent [] keys) set_reply-Silent)

  narrow_keys-Silent :
      (step : List Bytes → Lookup (List Bytes) → List Bytes) (set keys : List Bytes)
      → Silent (narrow_keys client cache_name step set keys)
  unfolding narrow_keys
  narrow_keys-Silent step set [] = record { at = λ c. (refl, refl) }
  narrow_keys-Silent step [] (key ∷ keys) = record { at = λ c. (refl, refl) }
  narrow_keys-Silent step (x ∷ set) (key ∷ keys) =
      call-Silent (client.set_fetch cache_name key) _ λ o.
        bind-Silent (or_raise o) (λ r. narrow_keys client cache_name step (step (x ∷ set) r) keys)
          (or_raise-Silent o) (λ r. narrow_keys-Silent step (step (x ∷ set) r) keys)

  narrowed-Silent :
      (step : List Bytes → Lookup (List Bytes) → List Bytes) (set keys : List Bytes)
      → Silent (narrow_keys client cache_name step set keys >>= set_reply client cache_name)
  narrowed-Silent step set keys =
      bind-Silent (narrow_keys client cache_name step set keys) (set_reply client cache_name)
        (narrow_keys-Silent step set keys) set_reply-Silent

  sdiff_reply-Silent :
      (rest : List Bytes) (r : Lookup (List Bytes)) → Silent (sdiff_reply client cache_name rest r)
  unfolding sdiff_reply
  sdiff_reply-Silent rest (hit values) = narrowed-Silent diff_step values rest
  sdiff_reply-Silent rest miss = record { at = λ c. (refl, refl) }

  sdiff_keys-Silent : (keys : List Bytes) → Silent (sdiff_keys client cache_name keys)
  unfolding sdiff_keys
  sdiff_keys-Silent [] = record { at = λ c. (refl, refl) }
  sdiff_keys-Silent (head ∷ rest) = call-Silent (client.set_fetch cache_name head) _ λ o.
      bind-Silent (or_raise o) (sdiff_reply client cache_name rest) (or_raise-Silent o)
        (sdiff_reply-Silent rest)

  pub sdiff-Silent : (keys : List Bytes) → Silent (sdiff client cache_name keys)
  unfolding sdiff
  sdiff-Silent keys = method-Silent _ _ (sdiff_keys client cache_name keys) (sdiff_keys-Silent keys)

  sinter_reply-Silent :
      (rest : List Bytes) (r : Lookup (List Bytes)) → Silent (sinter_reply client cache_name rest r)
  unfolding sinter_reply
  sinter_reply-Silent rest (hit values) = narrowed-Silent inter_step values rest
  sinter_reply-Silent rest miss = record { at = λ c. (refl, refl) }

  sinter_keys-Silent : (keys : List Bytes) → Silent (sinter_keys client cache_name keys)
  unfolding sinter_keys
  sinter_keys-Silent [] = record { at = λ c. (refl, refl) }
  sinter_keys-Silent (head ∷ rest) = call-Silent (client.set_fetch cache_name head) _ λ o.
      bind-Silent (or_raise o) (sinter_reply client cache_name rest) (or_raise-Silent o)
        (sinter_reply-Silent rest)

  pub sinter-Silent : (keys : List Bytes) → Silent (sinter client cache_name keys)
  unfolding sinter
  sinter-Silent keys =
      method-Silent _ _ (sinter_keys client cache_name keys) (sinter_keys-Silent keys)
