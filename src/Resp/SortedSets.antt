-- ===== src/Resp/SortedSets.antt =====
-- The sorted set commands of src/protocol/resp. Here: zcard, zcount, zincrby, zmscore, zscore; in the
-- children zrank, zrevrank, zrange and zadd, zrem, zunionstore.
pub mod Ranges
pub mod Stores
pub mod Replies
pub mod Quiet
pub mod Meant
pub mod Called
pub mod Stored
use mathlib.Core.List.{zip}
use momento_proxy.Base.{
  ℕ, ◌*◌, ◌%◌, ◌^◌, ◌≡◌, refl, Bool, true, false, ◌||◌, Option, none, some, List, [], ◌∷◌, ◌++◌,
  map, Bytes, String, codes, length, replicate, concat_map, if◌then◌else◌,
}
use momento_proxy.Base.Int.{ℤ}
use momento_proxy.Base.Text.{is_utf8}
use momento_proxy.Base.Exec.{
  Exec, Result, ok, err, panicked, pure, raise, panic, lift, continue, ◌>>=◌, ◌>>◌, for_each,
}
use momento_proxy.Error.{ProxyError, io, custom, Outcome, Lookup, hit, miss}
use momento_proxy.Client.{
  Floats, Client, SortedSetOrder, ascending, descending, ScoreBound, inclusive, exclusive,
  AggregateFunction,
}
use momento_proxy.Metrics.{Method, Counter, calls, ex, hits, misses}
use momento_proxy.Klog.{Status, klog_1}
use momento_proxy.Context.{Context, Handler, increment, klog, write, buf_len, call, or_return}
use momento_proxy.Resp.Strings.{as_i32}
use momento_proxy.Resp.Utils.{
  line_end, bulk_header, array_header, integer_line, empty_array, null_line, update_method_metrics,
  command, parse_score_boundary_as_integer, parse_score_boundary_as_float,
}

module _ (F : Floats) where
  -- Momento takes no infinite score; the greatest and the least finite one stand for them.
  unfoldable pub finite_score : F.F64 → F.F64
  finite_score s =
      if F.equal s F.infinity then F.max else if F.equal s F.neg_infinity then F.min else s

  -- The same with the tests of ZINCRBY, in their order.
  unfoldable pub finite_increment : F.F64 → F.F64
  finite_increment s =
      if F.equal s F.neg_infinity then F.min else if F.equal s F.infinity then F.max else s

  -- The bounds of ZCOUNT and ZRANGE .. BYSCORE, from a score and whether it is exclusive.
  unfoldable pub min_bound : F.F64 → Bool → Option (ScoreBound F.F64)
  min_bound s is_exclusive =
      if F.equal s F.neg_infinity
      then none
      else if F.equal s F.infinity
      then some (inclusive F.max)
      else if is_exclusive
      then some (exclusive s)
      else some (inclusive s)

  unfoldable pub max_bound : F.F64 → Bool → Option (ScoreBound F.F64)
  max_bound s is_exclusive =
      if F.equal s F.infinity
      then none
      else if F.equal s F.neg_infinity
      then some (exclusive F.min)
      else if is_exclusive
      then some (exclusive s)
      else some (inclusive s)

module _ {F : Floats} (client : Client F) (cache_name : String) where
  open client use {State, MomentoError}
  open F use {F64, F32, to_string}

  abbrev Action : Type 0
  Action = Handler State MomentoError (Unit {0})

  abbrev one_line : String → Bytes → Status → List Bytes
  one_line name key status = klog_1 name key status 0 ∷ []

  -- `write!(..)?; klog_1(.., status, response_buf.len())`
  pub logged_write : String → Bytes → Status → Bytes → Action
  logged_write name key status b = do write b; n ← buf_len; klog (klog_1 name key status n)

  score_line : F64 → Bytes
  score_line s = bulk_header (length (to_string s)) ++ to_string s ++ line_end

  length_reply : Method → String → Bytes → Lookup ℕ → Action
  unfolding logged_write
  length_reply method name key (hit len) = do
    increment (hits method)
    logged_write name key Status.hit (integer_line len)
  length_reply method name key miss = do
    increment (misses method)
    logged_write name key Status.miss (codes ":0" ++ line_end)

  pub zcard : Bytes → Action
  unfolding length_reply
  zcard key =
      command (calls Method.zcard) (ex Method.zcard) (client.sorted_set_length cache_name key)
        (one_line "zcard" key Status.server_error) (one_line "zcard" key Status.timeout)
        (length_reply Method.zcard "zcard" key)

  pub zcount : Bytes → F64 × Bool → F64 × Bool → Action
  unfolding length_reply min_bound max_bound
  zcount key (min_score, min_exclusive) (max_score, max_exclusive) =
      command (calls Method.zcount) (ex Method.zcount)
        (client.sorted_set_length_by_score cache_name key (min_bound F min_score min_exclusive)
          (max_bound F max_score max_exclusive))
        (one_line "zcount" key Status.server_error) (one_line "zcount" key Status.timeout)
        (length_reply Method.zcount "zcount" key)

  pub zincrby : Bytes → F64 → Bytes → Action
  unfolding finite_increment logged_write score_line
  zincrby key amount member =
      command (calls Method.zincrby) (ex Method.zincrby)
        (client.sorted_set_increment_score cache_name key member (finite_increment F amount))
        (one_line "zincrby" key Status.server_error) (one_line "zincrby" key Status.timeout)
        λ score. logged_write "zincrby" key Status.hit (score_line score)

  score_reply : Bytes → Lookup F64 → Action
  unfolding logged_write score_line
  score_reply key (hit score) = do
    increment (hits Method.zscore)
    logged_write "zscore" key Status.hit (score_line score)
  score_reply key miss = do
    increment (misses Method.zscore)
    logged_write "zscore" key Status.miss null_line

  pub zscore : Bytes → Bytes → Action
  unfolding score_reply
  zscore key member =
      command (calls Method.zscore) (ex Method.zscore)
        (client.sorted_set_get_score cache_name key member)
        (one_line "zscore" key Status.server_error) (one_line "zscore" key Status.timeout)
        (score_reply key)

  member_score : Lookup F64 → Action
  unfolding score_line
  member_score (hit score) = do increment (hits Method.zmscore); write (score_line score)
  member_score miss = do increment (misses Method.zmscore); write null_line

  zmscore_reply : Bytes → ℕ → Lookup (List (Lookup F64)) → Action
  unfolding member_score
  zmscore_reply key num_members (hit responses) = do
    write (array_header (length responses))
    for_each responses member_score
    n ← buf_len
    klog (klog_1 "zmscore" key Status.hit n)
  zmscore_reply key num_members miss = do
    increment (misses Method.zmscore)
    write (array_header num_members)
    write (concat_map (λ _. null_line) (replicate {A = Unit {0}} num_members tt))
    n ← buf_len
    klog (klog_1 "zmscore" key Status.miss n)

  pub zmscore : Bytes → List Bytes → Action
  unfolding zmscore_reply
  zmscore key members =
      command (calls Method.zmscore) (ex Method.zmscore)
        (client.sorted_set_get_scores cache_name key members)
        (one_line "zmscore" key Status.server_error) (one_line "zmscore" key Status.timeout)
        (zmscore_reply key (length members))
