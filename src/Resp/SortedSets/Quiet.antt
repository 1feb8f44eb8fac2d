-- ===== src/Resp/SortedSets/Quiet.antt =====
-- The sorted set commands leave the guard of their call alone.
use momento_proxy.Base.{ℕ, refl, Bool, List, Bytes, String, length}
use momento_proxy.Base.Exec.{for_each}
use momento_proxy.Error.{Lookup, hit, miss}
use momento_proxy.Client.{Floats, Client}
use momento_proxy.Metrics.{Method}
use momento_proxy.Klog.{Status}
use momento_proxy.Metrics.Observations.{counts}
use momento_proxy.Resp.Silent.{Silent, then-Silent, for_each-Silent, command-Silent}
use momento_proxy.Resp.SortedSets.{
  zcard, zcount, zincrby, zscore, zmscore, length_reply, score_reply, member_score, zmscore_reply,
  logged_write,
}

module _ {F : Floats} (client : Client F) (cache_name : String) where
  open client use {State, MomentoError}
  open F use {F64, F32}

  pub logged_write-Silent :
      (name : String) (key : Bytes) (status : Status) (b : Bytes)
      → Silent (logged_write client cache_name name key status b)
  unfolding logged_write
  logged_write-Silent name key status b = record { at = λ c. (refl, omega counts) }

  length_reply-Silent :
      (m : Method) (name : String) (key : Bytes) (r : Lookup ℕ)
      → Silent (length_reply client cache_name m name key r)
  unfolding length_reply logged_write
  length_reply-Silent m name key (hit n) = record { at = λ c. (refl, omega counts) }
  length_reply-Silent m name key miss = record { at = λ c. (refl, omega counts) }

  pub zcard-Silent : (key : Bytes) → Silent (zcard client cache_name key)
  unfolding zcard
  zcard-Silent key = command-Silent _ _ _ _ _ _ (length_reply-Silent Method.zcard "zcard" key)

  pub zcount-Silent :
      (key : Bytes) (low high : F64 × Bool) → Silent (zcount client cache_name key low high)
  unfolding zcount
  zcount-Silent key (l, x) (h, y) =
      command-Silent _ _ _ _ _ _ (length_reply-Silent Method.zcount "zcount" key)

  pub zincrby-Silent :
      (key : Bytes) (s : F64) (m : Bytes) → Silent (zincrby client cache_name key s m)
  unfolding zincrby logged_write
  zincrby-Silent key s m =
      command-Silent _ _ _ _ _ _ (λ a. record { at = λ c. (refl, omega counts) })

  score_reply-Silent : (key : Bytes) (r : Lookup F64) → Silent (score_reply client cache_name key r)
  unfolding score_reply logged_write
  score_reply-Silent key (hit s) = record { at = λ c. (refl, omega counts) }
  score_reply-Silent key miss = record { at = λ c. (refl, omega counts) }

  pub zscore-Silent : (key m : Bytes) → Silent (zscore client cache_name key m)
  unfolding zscore
  zscore-Silent key m = command-Silent _ _ _ _ _ _ (score_reply-Silent key)

  member_score-Silent : (r : Lookup F64) → Silent (member_score client cache_name r)
  unfolding member_score
  member_score-Silent (hit s) = record { at = λ c. (refl, omega counts) }
  member_score-Silent miss = record { at = λ c. (refl, omega counts) }

  zmscore_reply-Silent :
      (key : Bytes) (n : ℕ) (r : Lookup (List (Lookup F64)))
      → Silent (zmscore_reply client cache_name key n r)
  unfolding zmscore_reply
  zmscore_reply-Silent key n (hit rs) = record {
    at = λ c.
        then-Silent (for_each rs (member_score client cache_name)) _ c _ (refl, refl)
          (for_each-Silent rs _ member_score-Silent)
          (λ a. record { at = λ d. (refl, omega counts) });
  }
  zmscore_reply-Silent key n miss = record { at = λ c. (refl, omega counts) }

  pub zmscore-Silent : (key : Bytes) (ms : List Bytes) → Silent (zmscore client cache_name key ms)
  unfolding zmscore
  zmscore-Silent key ms = command-Silent _ _ _ _ _ _ (zmscore_reply-Silent key (length ms))
