-- ===== src/Resp/SortedSets/Replies.antt =====
-- The replies of the sorted set commands that make one call of the service.
use momento_proxy.Base.{
  ℕ, zero, suc, ◌≡◌, refl, sym, ap, ◌∙◌, subst, Bool, true, false, List, [], ◌∷◌, ◌++◌,
  append_assoc, append-nil, map, Bytes, String, length, concat_map, concat_map-map, length-map,
  replicate,
}
use momento_proxy.Base.Int.{pos}
use momento_proxy.Base.Decimal.{decimal, decimal_int}
use momento_proxy.Base.Exec.{ok, for_each}
use momento_proxy.Error.{Lookup, hit, miss}
use momento_proxy.Client.{Floats, Client, ascending, descending}
use momento_proxy.Klog.{Status, klog_1}
use momento_proxy.Metrics.{Method}
use momento_proxy.Context.{Context, write}
use momento_proxy.Resp.Wire.{Reply, Item, bulk, null, integer, item, array, encode, encode_item}
use momento_proxy.Resp.Answers.{
  response, answer, Writes, Writes-for_each, event-Writes, klog_len-Writes, array-Writes,
  array-bytes, command-answer, headed-Writes,
}
use momento_proxy.Resp.Hash.Replies.{size_or_zero, count_reply}
use momento_proxy.Resp.Utils.{array_header, null_line}
use momento_proxy.Resp.SortedSets.{
  finite_increment, min_bound, max_bound, logged_write, score_line, length_reply, zcard, zcount,
  zincrby, score_reply, zscore, member_score, zmscore_reply, zmscore,
}
use momento_proxy.Resp.SortedSets.Ranges.{rank_line, rank_reply, zrank, zrevrank}
use momento_proxy.Resp.SortedSets.Stores.{zrem}

module _ (F : Floats) where
  open F use {F64, to_string}

  abbrev pub score_item : F64 → Item
  score_item s = bulk (to_string s)

  abbrev pub item_or_null : Lookup F64 → Item
  item_or_null (hit s) = score_item s
  item_or_null miss = null

  abbrev pub scores : ℕ → Lookup (List (Lookup F64)) → Reply
  scores n (hit rs) = array (map item_or_null rs)
  scores n miss = array (replicate n null)

  -- The elements of a range, each followed by its score if scores are asked for.
  abbrev pub range_items : Bool → List (Bytes × F64) → List Item
  range_items with_scores [] = []
  range_items true ((e, s) ∷ es) = bulk e ∷ score_item s ∷ range_items true es
  range_items false ((e, s) ∷ es) = bulk e ∷ range_items false es

  abbrev pub range_or_empty : Bool → Lookup (List (Bytes × F64)) → Reply
  range_or_empty with_scores (hit es) = array (range_items with_scores es)
  range_or_empty with_scores miss = array []

-- A rank, and with `WITHSCORE` the member again.
abbrev pub rank_or_null : Bytes → Bool → Lookup ℕ → Reply
rank_or_null member true (hit n) = array (integer (pos n) ∷ bulk member ∷ [])
rank_or_null member false (hit n) = item (integer (pos n))
rank_or_null member with_score miss = item null

module _ {F : Floats} (client : Client F) (cache : String) where
  open client use {State, MomentoError}
  open F use {F64, to_string}

  length_reply-Writes :
      (m : Method) (name : String) (key : Bytes) (r : Lookup ℕ)
      → Writes (length_reply client cache m name key r) (encode (size_or_zero r))
  unfolding length_reply logged_write encode encode_item decimal_int
  length_reply-Writes m name key (hit n) = record { at = λ c. refl }
  length_reply-Writes m name key miss = record { at = λ c. unfold decimal in refl }

  pub zcard-answer :
      (key : Bytes) (c : Context State)
      → response (zcard client cache key c)
        ≡ answer size_or_zero c.response_buf (client.sorted_set_length cache key c.backend).0
  unfolding zcard
  zcard-answer key =
      command-answer _ _ _ _ _ _ size_or_zero (length_reply-Writes Method.zcard "zcard" key)

  pub zcount-answer :
      (key : Bytes) (low high : F64 × Bool) (c : Context State)
      → response (zcount client cache key low high c)
        ≡ answer size_or_zero c.response_buf
            (client.sorted_set_length_by_score cache key
              (min_bound F low.0 low.1)
              (max_bound F high.0 high.1)
              c.backend).0
  unfolding zcount
  zcount-answer key low high =
      command-answer _ _ _ _ _ _ size_or_zero (length_reply-Writes Method.zcount "zcount" key)

  pub zincrby-answer :
      (key : Bytes) (amount : F64) (member : Bytes) (c : Context State)
      → response (zincrby client cache key amount member c)
        ≡ answer
            (λ s. item (score_item F s))
            c.response_buf
            (client.sorted_set_increment_score cache key member
              (finite_increment F amount)
              c.backend).0
  unfolding zincrby logged_write score_line encode encode_item
  zincrby-answer key amount member =
      command-answer _ _ _ _ _ _ (λ s. item (score_item F s))
        (λ s. record { at = λ c. simp append_assoc })

  score_reply-Writes :
      (key : Bytes) (r : Lookup F64)
      → Writes (score_reply client cache key r) (encode (item (item_or_null F r)))
  unfolding score_reply logged_write score_line encode encode_item
  score_reply-Writes key (hit s) = record { at = λ c. simp append_assoc }
  score_reply-Writes key miss = record { at = λ c. refl }

  pub zscore-answer :
      (key member : Bytes) (c : Context State)
      → response (zscore client cache key member c)
        ≡ answer
            (λ r. item (item_or_null F r))
            c.response_buf
            (client.sorted_set_get_score cache key member c.backend).0
  unfolding zscore
  zscore-answer key member =
      command-answer _ _ _ _ _ _ (λ r. item (item_or_null F r)) (score_reply-Writes key)

  member_score-Writes :
      (r : Lookup F64) → Writes (member_score client cache r) (encode_item (item_or_null F r))
  unfolding member_score score_line encode_item
  member_score-Writes (hit s) = record { at = λ c. simp append_assoc }
  member_score-Writes miss = record { at = λ c. refl }

  nulls :
      (n : ℕ)
      → concat_map (λ _. null_line) (replicate {A = Unit {0}} n tt)
        ≡ concat_map encode_item (replicate n null)
  unfolding encode_item
  nulls zero = refl
  nulls (suc n) = ap (λ b. null_line ++ b) (nulls n)

  length-replicate : (n : ℕ) → length (replicate n null) ≡ n
  length-replicate zero = refl
  length-replicate (suc n) = ap suc (length-replicate n)

  zmscore_reply-Writes :
      (key : Bytes) (n : ℕ) (r : Lookup (List (Lookup F64)))
      → Writes (zmscore_reply client cache key n r) (encode (scores F n r))
  unfolding zmscore_reply
  zmscore_reply-Writes key n (hit rs) =
      subst (Writes _)
        (ap (λ k. array_header k ++ concat_map encode_item (map (item_or_null F) rs))
            (sym (length-map (item_or_null F) rs))
          ∙ array-bytes (map (item_or_null F) rs))
        (headed-Writes (for_each rs (member_score client cache)) _ (array_header (length rs))
          (concat_map encode_item (map (item_or_null F) rs))
          (subst (Writes _) (sym (concat_map-map encode_item (item_or_null F) rs)) (
            Writes-for_each (member_score client cache) (λ r. encode_item (item_or_null F r))
              member_score-Writes rs))
          (klog_len-Writes (klog_1 "zmscore" key Status.hit)))
  zmscore_reply-Writes key n miss =
      array-Writes _ (write (concat_map (λ _. null_line) (replicate {A = Unit {0}} n tt))) _ n
        (replicate n null) (sym (length-replicate n)) (event-Writes _)
        (record { at = λ c. ap (λ b. ok (c.response_buf ++ b)) (nulls n) })
        (klog_len-Writes (klog_1 "zmscore" key Status.miss))

  pub zmscore-answer :
      (key : Bytes) (members : List Bytes) (c : Context State)
      → response (zmscore client cache key members c)
        ≡ answer
            (scores F (length members))
            c.response_buf
            (client.sorted_set_get_scores cache key members c.backend).0
  unfolding zmscore
  zmscore-answer key members =
      command-answer _ _ _ _ _ _ (scores F (length members))
        (zmscore_reply-Writes key (length members))

  pub zrem-answer :
      (key : Bytes) (members : List Bytes) (c : Context State)
      → response (zrem client cache key members c)
        ≡ answer
            (count_reply (length members))
            c.response_buf
            (client.sorted_set_remove_elements cache key members c.backend).0
  unfolding zrem logged_write encode encode_item decimal_int
  zrem-answer key members =
      command-answer _ _ _ _ _ _ (count_reply (length members)) (λ _. record { at = λ c. refl })

  rank_reply-Writes :
      (m : Method) (name : String) (key member : Bytes) (w : Bool) (r : Lookup ℕ)
      → Writes (rank_reply client cache m name key member w r) (encode (rank_or_null member w r))
  unfolding rank_reply rank_line logged_write encode encode_item decimal_int
  rank_reply-Writes m name key member true (hit n) = record {
    at = λ c. unfold decimal in simp (append_assoc, append-nil);
  }
  rank_reply-Writes m name key member false (hit n) = record { at = λ c. refl }
  rank_reply-Writes m name key member true miss = record { at = λ c. refl }
  rank_reply-Writes m name key member false miss = record { at = λ c. refl }

  pub zrank-answer :
      (key member : Bytes) (w : Bool) (c : Context State)
      → response (zrank client cache key member w c)
        ≡ answer
            (rank_or_null member w)
            c.response_buf
            (client.sorted_set_get_rank cache key member ascending c.backend).0
  unfolding zrank
  zrank-answer key member w =
      command-answer _ _ _ _ _ _ (rank_or_null member w)
        (rank_reply-Writes Method.zrank "zrank" key member w)

  pub zrevrank-answer :
      (key member : Bytes) (w : Bool) (c : Context State)
      → response (zrevrank client cache key member w c)
        ≡ answer
            (rank_or_null member w)
            c.response_buf
            (client.sorted_set_get_rank cache key member descending c.backend).0
  unfolding zrevrank
  zrevrank-answer key member w =
      command-answer _ _ _ _ _ _ (rank_or_null member w)
        (rank_reply-Writes Method.zrevrank "zrevrank" key member w)
