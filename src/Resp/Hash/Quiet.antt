-- ===== src/Resp/Hash/Quiet.antt =====
-- The hash commands leave the guard of their call alone.
use mathlib.Core.List.{zip}
use momento_proxy.Base.{ℕ, refl, List, map, Bytes, String}
use momento_proxy.Base.Int.{ℤ}
use momento_proxy.Base.Exec.{for_each}
use momento_proxy.Error.{Lookup, hit, miss}
use momento_proxy.Client.{Floats, Client}
use momento_proxy.Metrics.Observations.{counts}
use momento_proxy.Resp.Utils.{write_bulks}
use momento_proxy.Resp.Silent.{
  Silent, then-Silent, for_each-Silent, command-Silent, write_bulks-Silent,
}
use momento_proxy.Resp.Hash.{
  hget, hget_reply, hexists, hexists_reply, hdel, hgetall, hgetall_reply, write_entries,
  write_entry, hincrby, hkeys, hkeys_reply, hlen, hlen_reply, hvals, hvals_reply, hmget,
  hmget_reply, hmget_field_reply, hset, log_entries,
}

module _ {F : Floats} (client : Client F) (cache_name : String) where
  open client use {State, MomentoError}

  hget_reply-Silent :
      (key field : Bytes) (r : Lookup Bytes) → Silent (hget_reply client cache_name key field r)
  unfolding hget_reply
  hget_reply-Silent key field (hit v) = record { at = λ c. (refl, omega counts) }
  hget_reply-Silent key field miss = record { at = λ c. (refl, omega counts) }

  pub hget-Silent : (key field : Bytes) → Silent (hget client cache_name key field)
  unfolding hget
  hget-Silent key field = command-Silent _ _ _ _ _ _ (hget_reply-Silent key field)

  hexists_reply-Silent :
      (key field : Bytes) (r : Lookup Bytes) → Silent (hexists_reply client cache_name key field r)
  unfolding hexists_reply
  hexists_reply-Silent key field (hit v) = record { at = λ c. (refl, omega counts) }
  hexists_reply-Silent key field miss = record { at = λ c. (refl, omega counts) }

  pub hexists-Silent : (key field : Bytes) → Silent (hexists client cache_name key field)
  unfolding hexists
  hexists-Silent key field = command-Silent _ _ _ _ _ _ (hexists_reply-Silent key field)

  pub hdel-Silent : (key : Bytes) (fields : List Bytes) → Silent (hdel client cache_name key fields)
  unfolding hdel
  hdel-Silent key fields =
      command-Silent _ _ _ _ _ _ (λ a. record { at = λ c. (refl, omega counts) })

  hgetall_reply-Silent :
      (key : Bytes) (r : Lookup (List (Bytes × Bytes)))
      → Silent (hgetall_reply client cache_name key r)
  unfolding hgetall_reply write_entries write_entry
  hgetall_reply-Silent key (hit entries) = record {
    at = λ c.
        then-Silent (write_entries client cache_name entries) _ c _ (refl, omega counts)
          (for_each-Silent entries _ (λ e. record { at = λ d. (refl, refl) }))
          (λ a. record { at = λ d. (refl, omega counts) });
  }
  hgetall_reply-Silent key miss = record { at = λ c. (refl, omega counts) }

  pub hgetall-Silent : (key : Bytes) → Silent (hgetall client cache_name key)
  unfolding hgetall
  hgetall-Silent key = command-Silent _ _ _ _ _ _ (hgetall_reply-Silent key)

  pub hincrby-Silent : (key field : Bytes) (n : ℤ) → Silent (hincrby client cache_name key field n)
  unfolding hincrby
  hincrby-Silent key field n =
      command-Silent _ _ _ _ _ _ (λ a. record { at = λ c. (refl, omega counts) })

  hkeys_reply-Silent :
      (key : Bytes) (r : Lookup (List (Bytes × Bytes)))
      → Silent (hkeys_reply client cache_name key r)
  unfolding hkeys_reply
  hkeys_reply-Silent key (hit entries) = record {
    at = λ c.
        then-Silent (write_bulks (map (λ entry. entry.0) entries)) _ c _ (refl, omega counts)
          (write_bulks-Silent _) (λ a. record { at = λ d. (refl, omega counts) });
  }
  hkeys_reply-Silent key miss = record { at = λ c. (refl, omega counts) }

  pub hkeys-Silent : (key : Bytes) → Silent (hkeys client cache_name key)
  unfolding hkeys
  hkeys-Silent key = command-Silent _ _ _ _ _ _ (hkeys_reply-Silent key)

  hlen_reply-Silent : (key : Bytes) (r : Lookup ℕ) → Silent (hlen_reply client cache_name key r)
  unfolding hlen_reply
  hlen_reply-Silent key (hit len) = record { at = λ c. (refl, omega counts) }
  hlen_reply-Silent key miss = record { at = λ c. (refl, omega counts) }

  pub hlen-Silent : (key : Bytes) → Silent (hlen client cache_name key)
  unfolding hlen
  hlen-Silent key = command-Silent _ _ _ _ _ _ (hlen_reply-Silent key)

  hvals_reply-Silent :
      (key : Bytes) (r : Lookup (List (Bytes × Bytes)))
      → Silent (hvals_reply client cache_name key r)
  unfolding hvals_reply
  hvals_reply-Silent key (hit entries) = record {
    at = λ c.
        then-Silent (write_bulks (map (λ entry. entry.1) entries)) _ c _ (refl, omega counts)
          (write_bulks-Silent _) (λ a. record { at = λ d. (refl, omega counts) });
  }
  hvals_reply-Silent key miss = record { at = λ c. (refl, omega counts) }

  pub hvals-Silent : (key : Bytes) → Silent (hvals client cache_name key)
  unfolding hvals
  hvals-Silent key = command-Silent _ _ _ _ _ _ (hvals_reply-Silent key)

  hmget_field_reply-Silent :
      (key field : Bytes) (r : Lookup Bytes)
      → Silent (hmget_field_reply client cache_name key field r)
  unfolding hmget_field_reply
  hmget_field_reply-Silent key field (hit v) = record { at = λ c. (refl, omega counts) }
  hmget_field_reply-Silent key field miss = record { at = λ c. (refl, omega counts) }

  hmget_reply-Silent :
      (key : Bytes) (asked : List Bytes) (r : Lookup (List Bytes × List (Lookup Bytes)))
      → Silent (hmget_reply client cache_name key asked r)
  unfolding hmget_reply
  hmget_reply-Silent key asked (hit (fields, responses)) = record {
    at = λ c.
        then-Silent
          (for_each (zip fields responses)
            (λ entry. hmget_field_reply client cache_name key entry.0 entry.1))
          _ c _ (refl, omega counts)
          (for_each-Silent (zip fields responses) _
            (λ (e : Bytes × Lookup Bytes). hmget_field_reply-Silent key e.0 e.1))
          (λ a. record { at = λ d. (refl, omega counts) });
  }
  hmget_reply-Silent key asked miss = record {
    at = λ c.
        then-Silent (for_each asked _) _ c _ (refl, omega counts)
          (for_each-Silent asked _ (λ e. record { at = λ d. (refl, omega counts) }))
          (λ a. record { at = λ d. (refl, omega counts) });
  }

  pub hmget-Silent :
      (key : Bytes) (fields : List Bytes) → Silent (hmget client cache_name key fields)
  unfolding hmget
  hmget-Silent key fields = command-Silent _ _ _ _ _ _ (hmget_reply-Silent key fields)

  pub hset-Silent :
      (key : Bytes) (entries : List (Bytes × Bytes)) → Silent (hset client cache_name key entries)
  unfolding hset log_entries
  hset-Silent key entries =
      command-Silent _ _ _ _ _ _ (λ a. record { at = λ c. (refl, omega counts) })
