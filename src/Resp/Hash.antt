-- ===== src/Resp/Hash.antt =====
-- The hash commands of src/protocol/resp: hdel, hexists, hget, hgetall, hincrby, hkeys, hlen, hmget,
-- hset, hvals.
use momento_proxy.Base.{
  ℕ, ◌+◌, ◌*◌, ◌≡◌, refl, Bool, true, false, List, [], ◌∷◌, ◌++◌, map, Bytes, String, codes, length,
}
pub mod Replies
pub mod Several
pub mod Quiet
pub mod Called
use mathlib.Core.List.{zip}
use momento_proxy.Base.Int.{ℤ, pos}
use momento_proxy.Base.Exec.{Exec, Result, ok, err, pure, ◌>>=◌, ◌>>◌, for_each}
use momento_proxy.Error.{ProxyError, Lookup, hit, miss}
use momento_proxy.Client.{Floats, Client}
use momento_proxy.Metrics.{
  Method, calls, ex, hits, misses, stored, hmget_field, hmget_field_hit, hmget_field_miss, add,
}
use momento_proxy.Klog.{Status, klog_1, klog_2, klog_7}
use momento_proxy.Context.{Context, Handler, event, increment, klog, klogs, write, buf_len}
use momento_proxy.Resp.Utils.{
  line_end, bulk_header, array_header, integer_line, int_line, empty_array, nil_line, command,
  write_bulks,
}

module _ {F : Floats} (client : Client F) (cache_name : String) where
  open client use {State, MomentoError}

  abbrev Action : Type 0
  Action = Handler State MomentoError (Unit {0})

  hget_reply : Bytes → Bytes → Lookup Bytes → Action
  hget_reply key field (hit value) = do
    increment (hits Method.hget)
    write (bulk_header (length value))
    write value
    write line_end
    klog (klog_2 "hget" key field Status.hit (length value))
  hget_reply key field miss = do
    increment (misses Method.hget)
    write nil_line
    klog (klog_2 "hget" key field Status.miss 0)

  pub hget : Bytes → Bytes → Action
  unfolding hget_reply
  hget key field =
      command (calls Method.hget) (ex Method.hget)
        (client.dictionary_get_field cache_name key field)
        (klog_2 "hget" key field Status.server_error 0 ∷ [])
        (klog_2 "hget" key field Status.timeout 0 ∷ []) (hget_reply key field)

  hexists_reply : Bytes → Bytes → Lookup Bytes → Action
  hexists_reply key field (hit value) = do
    increment (hits Method.hexists)
    write (codes ":1" ++ line_end)
    klog (klog_2 "hexists" key field Status.hit 1)
  hexists_reply key field miss = do
    increment (misses Method.hexists)
    write (codes ":0" ++ line_end)
    klog (klog_2 "hexists" key field Status.miss 0)

  pub hexists : Bytes → Bytes → Action
  unfolding hexists_reply
  hexists key field =
      command (calls Method.hexists) (ex Method.hexists)
        (client.dictionary_get_field cache_name key field)
        (klog_2 "hexists" key field Status.server_error 0 ∷ [])
        (klog_2 "hexists" key field Status.timeout 0 ∷ []) (hexists_reply key field)

  pub hdel : Bytes → List Bytes → Action
  hdel key fields =
      command (calls Method.hdel) (ex Method.hdel)
        (client.dictionary_remove_fields cache_name key fields)
        (map (λ field. klog_2 "hdel" key field Status.server_error 0) fields)
        (map (λ field. klog_2 "hdel" key field Status.timeout 0) fields)
        λ _. do
          write (integer_line (length fields))
          klogs (map (λ field. klog_2 "hdel" key field Status.deleted 0) fields)

  write_entry : Bytes × Bytes → Action
  write_entry (field, value) = do
    write (bulk_header (length field))
    write field
    write line_end
    write (bulk_header (length value))
    write value
    write line_end

  write_entries : List (Bytes × Bytes) → Action
  write_entries entries = for_each entries write_entry

  hgetall_reply : Bytes → Lookup (List (Bytes × Bytes)) → Action
  unfolding write_entries write_entry
  hgetall_reply key (hit entries) = do
    increment (hits Method.hgetall)
    write (array_header (length entries * 2))
    write_entries entries
    n ← buf_len
    klog (klog_1 "hgetall" key Status.hit n)
  hgetall_reply key miss = do
    increment (misses Method.hgetall)
    write empty_array
    n ← buf_len
    klog (klog_1 "hgetall" key Status.miss n)

  pub hgetall : Bytes → Action
  unfolding hgetall_reply
  hgetall key =
      command (calls Method.hgetall) (ex Method.hgetall) (client.dictionary_fetch cache_name key)
        (klog_1 "hgetall" key Status.server_error 0 ∷ [])
        (klog_1 "hgetall" key Status.timeout 0 ∷ []) (hgetall_reply key)

  pub hincrby : Bytes → Bytes → ℤ → Action
  hincrby key field amount =
      command (calls Method.hincrby) (ex Method.hincrby)
        (client.dictionary_increment cache_name key field amount)
        (klog_1 "hincrby" key Status.server_error 0 ∷ [])
        (klog_1 "hincrby" key Status.timeout 0 ∷ [])
        λ value. do write (int_line value); n ← buf_len; klog (klog_1 "hincrby" key Status.hit n)

  -- A miss writes nothing.
  hkeys_reply : Bytes → Lookup (List (Bytes × Bytes)) → Action
  hkeys_reply key (hit entries) = do
    increment (hits Method.hkeys)
    write (array_header (length entries))
    write_bulks (map (λ entry. entry.0) entries)
    n ← buf_len
    klog (klog_1 "hkeys" key Status.hit n)
  hkeys_reply key miss = do
    increment (misses Method.hkeys)
    n ← buf_len
    klog (klog_1 "hkeys" key Status.miss n)

  pub hkeys : Bytes → Action
  unfolding hkeys_reply
  hkeys key =
      command (calls Method.hkeys) (ex Method.hkeys) (client.dictionary_fetch cache_name key)
        (klog_1 "hkeys" key Status.server_error 0 ∷ []) (klog_1 "hkeys" key Status.timeout 0 ∷ [])
        (hkeys_reply key)

  hlen_reply : Bytes → Lookup ℕ → Action
  hlen_reply key (hit len) = do
    increment (hits Method.hlen)
    write (integer_line len)
    n ← buf_len
    klog (klog_1 "hlen" key Status.hit n)
  hlen_reply key miss = do
    increment (misses Method.hlen)
    write (codes ":0" ++ line_end)
    n ← buf_len
    klog (klog_1 "hlen" key Status.miss n)

  pub hlen : Bytes → Action
  unfolding hlen_reply
  hlen key =
      command (calls Method.hlen) (ex Method.hlen) (client.dictionary_length cache_name key)
        (klog_1 "hlen" key Status.server_error 0 ∷ []) (klog_1 "hlen" key Status.timeout 0 ∷ [])
        (hlen_reply key)

  hvals_reply : Bytes → Lookup (List (Bytes × Bytes)) → Action
  hvals_reply key (hit entries) = do
    increment (hits Method.hvals)
    write (array_header (length entries))
    write_bulks (map (λ entry. entry.1) entries)
    n ← buf_len
    klog (klog_1 "hvals" key Status.hit n)
  hvals_reply key miss = do
    increment (misses Method.hvals)
    write empty_array
    n ← buf_len
    klog (klog_1 "hvals" key Status.miss n)

  pub hvals : Bytes → Action
  unfolding hvals_reply
  hvals key =
      command (calls Method.hvals) (ex Method.hvals) (client.dictionary_fetch cache_name key)
        (klog_1 "hvals" key Status.server_error 0 ∷ []) (klog_1 "hvals" key Status.timeout 0 ∷ [])
        (hvals_reply key)

  hmget_field_reply : Bytes → Bytes → Lookup Bytes → Action
  hmget_field_reply key field (hit value) = do
    klog (klog_2 "hmget" key field Status.hit (length value))
    write (bulk_header (length value))
    write value
    write line_end
  hmget_field_reply key field miss = do
    klog (klog_2 "hmget" key field Status.miss 0)
    write nil_line

  count_hits : List (Bytes × Lookup Bytes) → ℕ × ℕ
  count_hits [] = (0, 0)
  count_hits ((field, hit value) ∷ rest) = let (h, m) = count_hits rest in (h + 1, m)
  count_hits ((field, miss) ∷ rest) = let (h, m) = count_hits rest in (h, m + 1)

  hmget_reply : Bytes → List Bytes → Lookup (List Bytes × List (Lookup Bytes)) → Action
  unfolding hmget_field_reply count_hits
  hmget_reply key asked (hit (fields, responses)) = do
    write (array_header (length asked))
    for_each (zip fields responses) λ entry. hmget_field_reply key entry.0 entry.1
    event (add hmget_field (length asked))
    event (add hmget_field_hit (count_hits (zip fields responses)).0)
    event (add hmget_field_miss (count_hits (zip fields responses)).1)
  hmget_reply key asked miss = do
    write (array_header (length asked))
    for_each asked λ field. do klog (klog_2 "hmget" key field Status.miss 0); write nil_line
    event (add hmget_field_miss (length asked))

  pub hmget : Bytes → List Bytes → Action
  unfolding hmget_reply
  hmget key fields =
      command (calls Method.hmget) (ex Method.hmget)
        (client.dictionary_get_fields cache_name key fields)
        (map (λ field. klog_2 "hmget" key field Status.server_error 0) fields)
        (map (λ field. klog_2 "hmget" key field Status.timeout 0) fields) (hmget_reply key fields)

  log_entries : Bytes → List (Bytes × Bytes) → Status → List Bytes
  log_entries key entries status =
      map (λ entry. klog_7 "hset" key entry.0 (pos 0) (length entry.1) status 0) entries

  pub hset : Bytes → List (Bytes × Bytes) → Action
  unfolding log_entries
  hset key entries =
      command (calls Method.hset) (ex Method.hset)
        (client.dictionary_set_fields cache_name key entries)
        (log_entries key entries Status.server_error) (log_entries key entries Status.timeout)
        λ _. do
          increment (stored Method.hset)
          klogs (log_entries key entries Status.stored)
          write (integer_line (length entries))
