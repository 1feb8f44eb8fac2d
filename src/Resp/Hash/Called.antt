-- ===== src/Resp/Hash/Called.antt =====
-- The calls of the hash commands.
use mathlib.Core.List.{zip}
use momento_proxy.Base.{◌≡◌, ℕ, refl, List, map, Bytes, String}
use momento_proxy.Base.Int.{ℤ}
use momento_proxy.Base.Exec.{for_each}
use momento_proxy.Error.{Lookup, hit, miss}
use momento_proxy.Client.{Floats, Client}
use momento_proxy.Context.{Context}
use momento_proxy.Resp.Utils.{write_bulks}
use momento_proxy.Resp.Calls.{
  Leaves, then-Leaves, for_each-Leaves, write_bulks-Leaves, command-backend,
}
use momento_proxy.Resp.Hash.{
  hget, hget_reply, hexists, hexists_reply, hdel, hgetall, hgetall_reply, write_entries,
  write_entry, hincrby, hkeys, hkeys_reply, hlen, hlen_reply, hvals, hvals_reply, hmget,
  hmget_reply, hmget_field_reply, hset, log_entries,
}

module _ {F : Floats} (client : Client F) (cache_name : String) where
  open client use {State, MomentoError}

  hget_reply-Leaves :
      (key field : Bytes) (r : Lookup Bytes) → Leaves (hget_reply client cache_name key field r)
  unfolding hget_reply
  hget_reply-Leaves key field (hit v) = record { at = λ c. refl }
  hget_reply-Leaves key field miss = record { at = λ c. refl }

  pub hget-backend :
      (key field : Bytes) (c : Context State)
      → (hget client cache_name key field c).1.backend
        ≡ (client.dictionary_get_field cache_name key field c.backend).1
  unfolding hget
  hget-backend key field = command-backend _ _ _ _ _ _ (hget_reply-Leaves key field)

  hexists_reply-Leaves :
      (key field : Bytes) (r : Lookup Bytes) → Leaves (hexists_reply client cache_name key field r)
  unfolding hexists_reply
  hexists_reply-Leaves key field (hit v) = record { at = λ c. refl }
  hexists_reply-Leaves key field miss = record { at = λ c. refl }

  pub hexists-backend :
      (key field : Bytes) (c : Context State)
      → (hexists client cache_name key field c).1.backend
        ≡ (client.dictionary_get_field cache_name key field c.backend).1
  unfolding hexists
  hexists-backend key field = command-backend _ _ _ _ _ _ (hexists_reply-Leaves key field)

  pub hdel-backend :
      (key : Bytes) (fields : List Bytes) (c : Context State)
      → (hdel client cache_name key fields c).1.backend
        ≡ (client.dictionary_remove_fields cache_name key fields c.backend).1
  unfolding hdel
  hdel-backend key fields = command-backend _ _ _ _ _ _ (λ a. record { at = λ c. refl })

  hgetall_reply-Leaves :
      (key : Bytes) (r : Lookup (List (Bytes × Bytes)))
      → Leaves (hgetall_reply client cache_name key r)
  unfolding hgetall_reply write_entries write_entry
  hgetall_reply-Leaves key (hit entries) = record {
    at = λ c.
        then-Leaves (write_entries client cache_name entries) _ c _ refl
          (for_each-Leaves entries _ (λ e. record { at = λ d. refl }))
          (λ a. record { at = λ d. refl });
  }
  hgetall_reply-Leaves key miss = record { at = λ c. refl }

  pub hgetall-backend :
      (key : Bytes) (c : Context State)
      → (hgetall client cache_name key c).1.backend
        ≡ (client.dictionary_fetch cache_name key c.backend).1
  unfolding hgetall
  hgetall-backend key = command-backend _ _ _ _ _ _ (hgetall_reply-Leaves key)

  pub hincrby-backend :
      (key field : Bytes) (n : ℤ) (c : Context State)
      → (hincrby client cache_name key field n c).1.backend
        ≡ (client.dictionary_increment cache_name key field n c.backend).1
  unfolding hincrby
  hincrby-backend key field n = command-backend _ _ _ _ _ _ (λ a. record { at = λ c. refl })

  hkeys_reply-Leaves :
      (key : Bytes) (r : Lookup (List (Bytes × Bytes)))
      → Leaves (hkeys_reply client cache_name key r)
  unfolding hkeys_reply
  hkeys_reply-Leaves key (hit entries) = record {
    at = λ c.
        then-Leaves (write_bulks (map (λ entry. entry.0) entries)) _ c _ refl (write_bulks-Leaves _)
          (λ a. record { at = λ d. refl });
  }
  hkeys_reply-Leaves key miss = record { at = λ c. refl }

  pub hkeys-backend :
      (key : Bytes) (c : Context State)
      → (hkeys client cache_name key c).1.backend
        ≡ (client.dictionary_fetch cache_name key c.backend).1
  unfolding hkeys
  hkeys-backend key = command-backend _ _ _ _ _ _ (hkeys_reply-Leaves key)

  hlen_reply-Leaves : (key : Bytes) (r : Lookup ℕ) → Leaves (hlen_reply client cache_name key r)
  unfolding hlen_reply
  hlen_reply-Leaves key (hit len) = record { at = λ c. refl }
  hlen_reply-Leaves key miss = record { at = λ c. refl }

  pub hlen-backend :
      (key : Bytes) (c : Context State)
      → (hlen client cache_name key c).1.backend
        ≡ (client.dictionary_length cache_name key c.backend).1
  unfolding hlen
  hlen-backend key = command-backend _ _ _ _ _ _ (hlen_reply-Leaves key)

  hvals_reply-Leaves :
      (key : Bytes) (r : Lookup (List (Bytes × Bytes)))
      → Leaves (hvals_reply client cache_name key r)
  unfolding hvals_reply
  hvals_reply-Leaves key (hit entries) = record {
    at = λ c.
        then-Leaves (write_bulks (map (λ entry. entry.1) entries)) _ c _ refl (write_bulks-Leaves _)
          (λ a. record { at = λ d. refl });
  }
  hvals_reply-Leaves key miss = record { at = λ c. refl }

  pub hvals-backend :
      (key : Bytes) (c : Context State)
      → (hvals client cache_name key c).1.backend
        ≡ (client.dictionary_fetch cache_name key c.backend).1
  unfolding hvals
  hvals-backend key = command-backend _ _ _ _ _ _ (hvals_reply-Leaves key)

  hmget_field_reply-Leaves :
      (key field : Bytes) (r : Lookup Bytes)
      → Leaves (hmget_field_reply client cache_name key field r)
  unfolding hmget_field_reply
  hmget_field_reply-Leaves key field (hit v) = record { at = λ c. refl }
  hmget_field_reply-Leaves key field miss = record { at = λ c. refl }

  hmget_reply-Leaves :
      (key : Bytes) (asked : List Bytes) (r : Lookup (List Bytes × List (Lookup Bytes)))
      → Leaves (hmget_reply client cache_name key asked r)
  unfolding hmget_reply
  hmget_reply-Leaves key asked (hit (fields, responses)) = record {
    at = λ c.
        then-Leaves
          (for_each (zip fields responses)
            (λ entry. hmget_field_reply client cache_name key entry.0 entry.1))
          _ c _ refl
          (for_each-Leaves (zip fields responses) _
            (λ (e : Bytes × Lookup Bytes). hmget_field_reply-Leaves key e.0 e.1))
          (λ a. record { at = λ d. refl });
  }
  hmget_reply-Leaves key asked miss = record {
    at = λ c.
        then-Leaves (for_each asked _) _ c _ refl
          (for_each-Leaves asked _ (λ e. record { at = λ d. refl }))
          (λ a. record { at = λ d. refl });
  }

  pub hmget-backend :
      (key : Bytes) (fields : List Bytes) (c : Context State)
      → (hmget client cache_name key fields c).1.backend
        ≡ (client.dictionary_get_fields cache_name key fields c.backend).1
  unfolding hmget
  hmget-backend key fields = command-backend _ _ _ _ _ _ (hmget_reply-Leaves key fields)

  pub hset-backend :
      (key : Bytes) (entries : List (Bytes × Bytes)) (c : Context State)
      → (hset client cache_name key entries c).1.backend
        ≡ (client.dictionary_set_fields cache_name key entries c.backend).1
  unfolding hset log_entries
  hset-backend key entries = command-backend _ _ _ _ _ _ (λ a. record { at = λ c. refl })
