-- ===== src/Resp/SortedSets/Called.antt =====
-- The replies of the sorted set commands that check or read their arguments before the call: zrange, zadd and
-- zunionstore.
use mathlib.Core.Option
use momento_proxy.Base.{
  ◌*◌, ◌≡◌, refl, ap, ◌∙◌, subst, Bool, true, false, List, [], ◌∷◌, ◌++◌, append_assoc, Bytes,
  String, length, arith, concat_map, if◌then◌else◌,
}
use momento_proxy.Base.Decimal.{decimal}
use momento_proxy.Base.Exec.{Result, ok, err, panicked, lift, ◌>>=◌, for_each}
use momento_proxy.Error.{ProxyError, io, Lookup, hit, miss, is_done, is_failed, is_elapsed, ends}
use momento_proxy.Client.{Floats, Client, Rpc}
use momento_proxy.Klog.{Status, klog_1}
use momento_proxy.Context.{Context, Handler, klog, call, or_return}
use momento_proxy.Resp.Wire.{Reply, bulk, encode, encode_item}
use momento_proxy.Resp.Answers.{
  response, answer, Writes, Writes-for_each, event-Writes, klog_len-Writes, array-Writes,
  response-update_method_metrics,
}
use momento_proxy.Resp.Chains.{and_then, and_then-ap}
use momento_proxy.Resp.Utils.{parse_score_boundary_as_integer, parse_score_boundary_as_float}
use momento_proxy.Resp.SortedSets.{min_bound, max_bound, logged_write, score_line}
use momento_proxy.Resp.SortedSets.Replies.{score_item, range_items, range_or_empty}
use momento_proxy.Resp.SortedSets.Meant.{low_bound, high_bound, direction}
use momento_proxy.Resp.SortedSets.Ranges.{
  RangeType, by_index, by_score, by_lex, RangeArgs, order_of, is_set, as_u32, as_i32_of_int,
  range_entry, zrange_reply, fetch, zrange_response, zrange,
}

module _ {S E A : Type 0} where
  -- A call whose errors are logged, and the reply to its result.
  pub called-answer :
      (rpc : Rpc S E A) (on_error on_timeout : Bytes) (reply : A → Handler S E (Unit {0}))
      (f : A → Reply)
      → ((a : A) → Writes (reply a) (encode (f a)))
      → (c : Context S)
      → response ((call rpc >>= λ o. (or_return (klog on_error) (klog on_timeout) o >>= reply)) c)
        ≡ answer f c.response_buf (rpc c.backend).0
  called-answer rpc on_error on_timeout reply f w c = elim (ends (rpc c.backend).0) [
    | is_done a e ↦ rw e ((w a).at _)
    | is_failed x e ↦ rw e
    | is_elapsed e ↦ rw e
  ]

  lifted :
      {B : Type 0}
      → (r : Result (ProxyError E) B) (g : B → Handler S E A) (reply : A → Handler S E (Unit {0}))
        (c : Context S)
      → response (((lift r >>= g) >>= reply) c) ≡ and_then r (λ b. response ((g b >>= reply) c))
  lifted (ok b) g reply c = refl
  lifted (err e) g reply c = refl
  lifted panicked g reply c = refl

module _ {F : Floats} (client : Client F) (cache : String) (key : Bytes) where
  open client use {State, MomentoError}
  open F use {F64}

  range_bytes : Bool → Bytes × F64 → Bytes
  range_bytes w (e, s) = encode_item (bulk e) ++ (if w then encode_item (score_item F s) else [])

  range_entry-Writes :
      (w : Bool) (e : Bytes × F64) → Writes (range_entry client cache w e) (range_bytes w e)
  unfolding range_entry range_bytes score_line encode_item
  range_entry-Writes true (e, s) = record { at = λ c. simp append_assoc }
  range_entry-Writes false (e, s) = record { at = λ c. simp append_assoc }

  range_items-bytes :
      (w : Bool) (es : List (Bytes × F64))
      → concat_map (range_bytes w) es ≡ concat_map encode_item (range_items F w es)
  unfolding range_bytes
  range_items-bytes w [] = refl
  range_items-bytes true ((e, s) ∷ es) =
      append_assoc (encode_item (bulk e)) (encode_item (score_item F s)) _
      ∙ ap (λ b. encode_item (bulk e) ++ (encode_item (score_item F s) ++ b))
          (range_items-bytes true es)
  range_items-bytes false ((e, s) ∷ es) =
      append_assoc (encode_item (bulk e)) [] _
      ∙ ap (λ b. encode_item (bulk e) ++ b) (range_items-bytes false es)

  length-range_items :
      (w : Bool) (es : List (Bytes × F64))
      → (if w then length es * 2 else length es) ≡ length (range_items F w es)
  length-range_items true [] = refl
  length-range_items false [] = refl
  length-range_items true (e ∷ es) = omega (arith, length-range_items true es)
  length-range_items false (e ∷ es) = omega (arith, length-range_items false es)

  zrange_reply-Writes :
      (w : Bool) (r : Lookup (List (Bytes × F64)))
      → Writes (zrange_reply client cache key w r) (encode (range_or_empty F w r))
  unfolding zrange_reply
  zrange_reply-Writes w (hit es) =
      array-Writes _ (for_each es (range_entry client cache w)) _
        (if w then length es * 2 else length es) (range_items F w es) (length-range_items w es)
        (event-Writes _)
        (subst (Writes _) (range_items-bytes w es)
          (Writes-for_each (range_entry client cache w) (range_bytes w) (range_entry-Writes w) es))
        (klog_len-Writes (klog_1 "zrange" key Status.hit))
  zrange_reply-Writes w miss = record { at = λ c. unfold logged_write encode decimal in refl }

  -- Two bounds are read, and the range between them is fetched.
  bounded :
      {B : Type 0}
      → (w : Bool) (low high : Result (ProxyError MomentoError) B)
        (rpc : B → B → Rpc State MomentoError (Lookup (List (Bytes × F64)))) (c : Context State)
      → response (
          ((lift low >>= λ a. (lift high >>= λ b. fetch client cache key (rpc a b)))
              >>= zrange_reply client cache key w)
            c)
        ≡ and_then low (λ a.
          and_then high (λ b. answer (range_or_empty F w) c.response_buf (rpc a b c.backend).0))
  unfolding fetch
  bounded w low high rpc c =
      lifted low _ (zrange_reply client cache key w) c
      ∙ and_then-ap low _ _ λ a.
        lifted high _ (zrange_reply client cache key w) c
        ∙ and_then-ap high _ _ λ b.
          called-answer (rpc a b) (klog_1 "zrange" key Status.server_error 0)
            (klog_1 "zrange" key Status.timeout 0) (zrange_reply client cache key w)
            (range_or_empty F w) (zrange_reply-Writes w) c

  -- What ZRANGE replies: the elements between two ranks or two scores, or the error of a bound that cannot be
  -- read.
  abbrev pub range_answer :
      Bytes → Bytes → RangeType → RangeArgs → Bytes → State → Result (ProxyError MomentoError) Bytes
  range_answer start stop by_lex args buf t =
      err (io "Momento proxy does not support BYLEX for ZRANGE")
  range_answer start stop by_index args buf t =
      and_then (parse_score_boundary_as_integer start) λ first.
        and_then (parse_score_boundary_as_integer stop) λ last.
          answer (range_or_empty F (is_set args.with_scores)) buf
            (client.sorted_set_fetch_by_rank cache key (direction args.reversed) first last t).0
  range_answer start stop by_score args buf t =
      and_then (parse_score_boundary_as_float F start) λ low.
        and_then (parse_score_boundary_as_float F stop) λ high.
          answer (range_or_empty F (is_set args.with_scores)) buf
            (client.sorted_set_fetch_by_score cache key (direction args.reversed)
              (low_bound F low.0 low.1) (high_bound F high.0 high.1) (Option.map as_u32 args.offset)
              (Option.map as_i32_of_int args.count) t).0

  pub zrange-answer :
      (start stop : Bytes) (by : RangeType) (args : RangeArgs) (c : Context State)
      → response (zrange client cache key start stop by args c)
        ≡ range_answer start stop by args c.response_buf c.backend
  unfolding zrange zrange_response fetch min_bound max_bound
  zrange-answer start stop by_lex args c = response-update_method_metrics _ _ _ c
  zrange-answer start stop by_index args c =
      response-update_method_metrics _ _ _ c
      ∙ bounded (is_set args.with_scores) (parse_score_boundary_as_integer start)
          (parse_score_boundary_as_integer stop)
          (λ first last.
            client.sorted_set_fetch_by_rank cache key (order_of args.reversed) first last)
          _
  zrange-answer start stop by_score args c =
      response-update_method_metrics _ _ _ c
      ∙ bounded (is_set args.with_scores) (parse_score_boundary_as_float F start)
          (parse_score_boundary_as_float F stop)
          (λ low high.
            client.sorted_set_fetch_by_score cache key (order_of args.reversed)
              (min_bound F low.0 low.1) (max_bound F high.0 high.1) (Option.map as_u32 args.offset)
              (Option.map as_i32_of_int args.count))
          _
