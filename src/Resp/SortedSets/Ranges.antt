-- ===== src/Resp/SortedSets/Ranges.antt =====
-- src/protocol/resp/zrank.rs, zrevrank.rs, zrange.rs.
pub mod Quiet
use mathlib.Core.Option
use momento_proxy.Base.{
  ℕ, ◌-◌, ◌*◌, ◌%◌, ◌^◌, Bool, true, false, Option, some, List, [], ◌++◌, Bytes, String, codes,
  length, if◌then◌else◌,
}
use momento_proxy.Base.Int.{ℤ, pos, negsuc}
use momento_proxy.Base.Exec.{raise, lift, ◌>>=◌, ◌>>◌, for_each}
use momento_proxy.Error.{io, Lookup, hit, miss}
use momento_proxy.Client.{Floats, Client, Rpc, SortedSetOrder, ascending, descending}
use momento_proxy.Metrics.{Method, calls, ex, hits, misses}
use momento_proxy.Klog.{Status, klog_1}
use momento_proxy.Context.{Handler, increment, klog, write, buf_len, call, or_return}
use momento_proxy.Resp.Strings.{as_i32}
use momento_proxy.Resp.Utils.{
  line_end, bulk_header, array_header, integer_line, empty_array, null_line, update_method_metrics,
  command, parse_score_boundary_as_integer, parse_score_boundary_as_float,
}
use momento_proxy.Resp.SortedSets.{one_line, logged_write, score_line, min_bound, max_bound}

pub data RangeType : Type 0 where
  by_index by_score by_lex : RangeType

-- `optional_args()` of ZRANGE.
pub record RangeArgs : Type 0 where
  pub reversed : Option Bool
  pub with_scores : Option Bool
  pub offset : Option ℤ
  pub count : Option ℤ

unfoldable pub order_of : Option Bool → SortedSetOrder
order_of (some true) = descending
order_of _ = ascending

unfoldable pub is_set : Option Bool → Bool
is_set (some true) = true
is_set _ = false

-- `o as u32` and `c as i32`, of a 64-bit integer.
unfoldable pub as_u32 : ℤ → ℕ
as_u32 (pos n) = n % 2 ^ 32
as_u32 (negsuc n) = 2 ^ 32 - 1 - n % 2 ^ 32

unfoldable pub as_i32_of_int : ℤ → ℤ
as_i32_of_int z = as_i32 (as_u32 z)

module _ {F : Floats} (client : Client F) (cache_name : String) where
  open client use {State, MomentoError}
  open F use {F64, F32}

  abbrev Action : Type 0
  Action = Handler State MomentoError (Unit {0})

  -- The element of the pair is the member again, not its score.
  unfoldable pub rank_line : Bytes → Bool → ℕ → Bytes
  rank_line member true rank =
      codes "*2"
      ++ line_end
      ++ integer_line rank
      ++ bulk_header (length member)
      ++ member
      ++ line_end
  rank_line member false rank = integer_line rank

  unfoldable pub rank_reply : Method → String → Bytes → Bytes → Bool → Lookup ℕ → Action
  unfolding rank_line logged_write
  rank_reply method name key member with_score (hit rank) = do
    increment (hits method)
    logged_write client cache_name name key Status.hit (rank_line member with_score rank)
  rank_reply method name key member with_score miss = do
    increment (misses method)
    logged_write client cache_name name key Status.miss null_line

  unfoldable pub zrank : Bytes → Bytes → Bool → Action
  unfolding rank_reply
  zrank key member with_score =
      command (calls Method.zrank) (ex Method.zrank)
        (client.sorted_set_get_rank cache_name key member ascending)
        (one_line client cache_name "zrank" key Status.server_error)
        (one_line client cache_name "zrank" key Status.timeout)
        (rank_reply Method.zrank "zrank" key member with_score)

  unfoldable pub zrevrank : Bytes → Bytes → Bool → Action
  unfolding rank_reply
  zrevrank key member with_score =
      command (calls Method.zrevrank) (ex Method.zrevrank)
        (client.sorted_set_get_rank cache_name key member descending)
        (one_line client cache_name "zrevrank" key Status.server_error)
        (one_line client cache_name "zrevrank" key Status.timeout)
        (rank_reply Method.zrevrank "zrevrank" key member with_score)

  unfoldable pub range_entry : Bool → Bytes × F64 → Action
  unfolding score_line
  range_entry include_scores (element, score) = do
    write (bulk_header (length element))
    write element
    write line_end
    write (if include_scores then score_line client cache_name score else [])

  unfoldable pub zrange_reply : Bytes → Bool → Lookup (List (Bytes × F64)) → Action
  unfolding range_entry logged_write
  zrange_reply key include_scores (hit elements) = do
    increment (hits Method.zrange)
    write (array_header (if include_scores then length elements * 2 else length elements))
    for_each elements (range_entry include_scores)
    n ← buf_len
    klog (klog_1 "zrange" key Status.hit n)
  zrange_reply key include_scores miss = do
    increment (misses Method.zrange)
    logged_write client cache_name "zrange" key Status.miss empty_array

  unfoldable pub fetch :
      Bytes
      → Rpc State MomentoError (Lookup (List (Bytes × F64)))
      → Handler State MomentoError (Lookup (List (Bytes × F64)))
  fetch key rpc = do
    outcome ← call rpc
    or_return (klog (klog_1 "zrange" key Status.server_error 0))
        (klog (klog_1 "zrange" key Status.timeout 0)) outcome

  unfoldable pub zrange_response :
      Bytes
      → Bytes
      → Bytes
      → RangeType
      → RangeArgs
      → Handler State MomentoError (Lookup (List (Bytes × F64)))
  unfolding fetch order_of as_u32 as_i32_of_int
  zrange_response key start stop by_lex args = do
    klog (klog_1 "zrange" key Status.server_error 0)
    raise (io "Momento proxy does not support BYLEX for ZRANGE")
  zrange_response key start stop by_index args = do
    first ← lift (parse_score_boundary_as_integer start)
    last ← lift (parse_score_boundary_as_integer stop)
    fetch key (client.sorted_set_fetch_by_rank cache_name key (order_of args.reversed) first last)
  zrange_response key start stop by_score args = do
    low ← lift (parse_score_boundary_as_float F start)
    high ← lift (parse_score_boundary_as_float F stop)
    fetch key (
        client.sorted_set_fetch_by_score cache_name key (order_of args.reversed)
          (min_bound F low.0 low.1) (max_bound F high.0 high.1) (Option.map as_u32 args.offset)
          (Option.map as_i32_of_int args.count))

  unfoldable pub zrange : Bytes → Bytes → Bytes → RangeType → RangeArgs → Action
  unfolding zrange_response zrange_reply is_set
  zrange key start stop range_type args =
      update_method_metrics (calls Method.zrange) (ex Method.zrange) do
        response ← zrange_response key start stop range_type args
        zrange_reply key (is_set args.with_scores) response
