-- ===== src/Frontend/Dispatch/Scores.antt =====
-- The replies to the sorted set commands, held against an independent description of them.
use momento_proxy.Base.{◌≡◌, ◌∙◌, Bytes, String, length}
use momento_proxy.Base.Exec.{Result}
use momento_proxy.Error.{ProxyError}
use momento_proxy.Client.{Floats, Client, ascending, descending}
use momento_proxy.Context.{Context}
use momento_proxy.Metrics.Endpoints.{
  resp_zadd, resp_zcard, resp_zcount, resp_zincrby, resp_zmscore, resp_zrange, resp_zrank,
  resp_zrem, resp_zrevrank, resp_zscore, resp_zunionstore,
}
use momento_proxy.Resp.Wire.{item}
use momento_proxy.Resp.Answers.{response, answer}
use momento_proxy.Resp.Hash.Replies.{size_or_zero, count_reply}
use momento_proxy.Resp.SortedSets.{finite_increment, min_bound, max_bound}
use momento_proxy.Resp.SortedSets.Meant.{increment_score, low_bound, high_bound}
use momento_proxy.Resp.SortedSets.Replies.{
  score_item, item_or_null, scores, rank_or_null, zcard-answer, zcount-answer, zincrby-answer,
  zscore-answer, zmscore-answer, zrem-answer, zrank-answer, zrevrank-answer,
}
use momento_proxy.Resp.SortedSets.Called.{range_answer, zrange-answer}
use momento_proxy.Resp.SortedSets.Stored.{add_answer, zadd-answer, union_answer, zunionstore-answer}
use momento_proxy.Frontend.Dispatch.{
  SortedSetRequest, cardinality, increment, score, multi_score, remove, rank, reverse_rank, range,
  add, count, union_store, dispatch_sorted_set,
}
use momento_proxy.Frontend.Dispatch.Hashes.{response-guarded}

module _ {F : Floats} (client : Client F) (cache : String) where
  open client use {State, MomentoError}

  -- What a sorted set command leaves in the response buffer: the reply for what the service returns, behind
  -- what was there, or its error.
  abbrev pub sorted_set_answer :
      SortedSetRequest F → Context State → Result (ProxyError MomentoError) Bytes
  sorted_set_answer (cardinality key) c =
      answer size_or_zero c.response_buf (client.sorted_set_length cache key c.backend).0
  sorted_set_answer (count key low high) c =
      answer size_or_zero c.response_buf
        (client.sorted_set_length_by_score cache key (low_bound F low.0 low.1)
          (high_bound F high.0 high.1) c.backend).0
  sorted_set_answer (increment key s m) c =
      answer (λ x. item (score_item F x)) c.response_buf
        (client.sorted_set_increment_score cache key m (increment_score F s) c.backend).0
  sorted_set_answer (score key m) c =
      answer (λ r. item (item_or_null F r)) c.response_buf
        (client.sorted_set_get_score cache key m c.backend).0
  sorted_set_answer (multi_score key ms) c =
      answer (scores F (length ms)) c.response_buf
        (client.sorted_set_get_scores cache key ms c.backend).0
  sorted_set_answer (remove key ms) c =
      answer (count_reply (length ms)) c.response_buf
        (client.sorted_set_remove_elements cache key ms c.backend).0
  sorted_set_answer (rank key m with_score) c =
      answer (rank_or_null m with_score) c.response_buf
        (client.sorted_set_get_rank cache key m ascending c.backend).0
  sorted_set_answer (reverse_rank key m with_score) c =
      answer (rank_or_null m with_score) c.response_buf
        (client.sorted_set_get_rank cache key m descending c.backend).0
  sorted_set_answer (range key i j by args) c =
      range_answer client cache key i j by args c.response_buf c.backend
  sorted_set_answer (add key ms args) c =
      add_answer client cache key ms args c.response_buf c.backend
  sorted_set_answer (union_store to ks weights f) c =
      union_answer client cache to ks weights f c.response_buf c.backend

  pub dispatch_sorted_set-answer :
      (r : SortedSetRequest F) (c : Context State)
      → response (dispatch_sorted_set client cache r c) ≡ sorted_set_answer r c
  unfolding dispatch_sorted_set finite_increment min_bound max_bound
  dispatch_sorted_set-answer (cardinality key) c =
      response-guarded client cache resp_zcard _ c ∙ zcard-answer client cache key _
  dispatch_sorted_set-answer (count key low high) c =
      response-guarded client cache resp_zcount _ c ∙ zcount-answer client cache key low high _
  dispatch_sorted_set-answer (increment key s m) c =
      response-guarded client cache resp_zincrby _ c ∙ zincrby-answer client cache key s m _
  dispatch_sorted_set-answer (score key m) c =
      response-guarded client cache resp_zscore _ c ∙ zscore-answer client cache key m _
  dispatch_sorted_set-answer (multi_score key ms) c =
      response-guarded client cache resp_zmscore _ c ∙ zmscore-answer client cache key ms _
  dispatch_sorted_set-answer (remove key ms) c =
      response-guarded client cache resp_zrem _ c ∙ zrem-answer client cache key ms _
  dispatch_sorted_set-answer (rank key m w) c =
      response-guarded client cache resp_zrank _ c ∙ zrank-answer client cache key m w _
  dispatch_sorted_set-answer (reverse_rank key m w) c =
      response-guarded client cache resp_zrevrank _ c ∙ zrevrank-answer client cache key m w _
  dispatch_sorted_set-answer (range key i j by args) c =
      response-guarded client cache resp_zrange _ c ∙ zrange-answer client cache key i j by args _
  dispatch_sorted_set-answer (add key ms args) c =
      response-guarded client cache resp_zadd _ c ∙ zadd-answer client cache key ms args _
  dispatch_sorted_set-answer (union_store to ks weights f) c =
      response-guarded client cache resp_zunionstore _ c
      ∙ zunionstore-answer client cache to ks weights f _
