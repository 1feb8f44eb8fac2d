-- ===== src/Frontend/Dispatch/Elements.antt =====
-- The replies to the list commands, held against an independent description of them.
use momento_proxy.Base.{◌≡◌, ◌∙◌, [], Bytes, String}
use momento_proxy.Base.Exec.{Result}
use momento_proxy.Error.{ProxyError}
use momento_proxy.Client.{Floats, Client}
use momento_proxy.Context.{Context}
use momento_proxy.Metrics.Endpoints.{
  resp_lindex, resp_llen, resp_lpop, resp_lpush, resp_lrange, resp_rpop, resp_rpush,
}
use momento_proxy.Resp.Answers.{response, answer, written}
use momento_proxy.Resp.Hash.Replies.{size_or_zero}
use momento_proxy.Resp.Lists.Fetched.{indexed, lindex-answer, llen-answer}
use momento_proxy.Resp.Lists.Popped.{pop_answer, lpop-answer, rpop-answer}
use momento_proxy.Resp.Lists.Replies.{range_bytes, lrange-answer, pushes_silent}
use momento_proxy.Frontend.Dispatch.{
  ListRequest, index, len, pop, pop_back, range, push, push_back, dispatch_list,
}
use momento_proxy.Frontend.Dispatch.Hashes.{response-guarded}

module _ {F : Floats} (client : Client F) (cache : String) where
  open client use {State, MomentoError}

  -- What a list command leaves in the response buffer, behind what was there, or its error. LRANGE writes its
  -- elements without the line ends that a RESP array has, and a push writes nothing.
  abbrev pub list_answer : ListRequest → Context State → Result (ProxyError MomentoError) Bytes
  list_answer (index key i) c =
      answer (indexed i) c.response_buf (client.list_fetch cache key c.backend).0
  list_answer (len key) c =
      answer size_or_zero c.response_buf (client.list_length cache key c.backend).0
  list_answer (pop key n) c =
      pop_answer client cache (client.list_pop_front cache key) key n c.response_buf c.backend
  list_answer (pop_back key n) c =
      pop_answer client cache (client.list_pop_back cache key) key n c.response_buf c.backend
  list_answer (range key i j) c =
      written (range_bytes i j) c.response_buf (client.list_fetch cache key c.backend).0
  list_answer (push key es) c =
      written (λ _. []) c.response_buf (client.list_concatenate_front cache key es c.backend).0
  list_answer (push_back key es) c =
      written (λ _. []) c.response_buf (client.list_concatenate_back cache key es c.backend).0

  -- After a list command the response buffer holds the reply that list_answer describes from what
  -- the service answers, for a pop of several elements to one call for each until one finds none;
  -- the first call that fails or times out ends the command in that error.
  pub dispatch_list-answer :
      (r : ListRequest) (c : Context State)
      → response (dispatch_list client cache r c) ≡ list_answer r c
  unfolding dispatch_list
  dispatch_list-answer (index key i) c =
      response-guarded client cache resp_lindex _ c ∙ lindex-answer client cache key i _
  dispatch_list-answer (len key) c =
      response-guarded client cache resp_llen _ c ∙ llen-answer client cache key _
  dispatch_list-answer (pop key n) c =
      response-guarded client cache resp_lpop _ c ∙ lpop-answer client cache key n _
  dispatch_list-answer (pop_back key n) c =
      response-guarded client cache resp_rpop _ c ∙ rpop-answer client cache key n _
  dispatch_list-answer (range key i j) c =
      response-guarded client cache resp_lrange _ c ∙ lrange-answer client cache key i j _
  dispatch_list-answer (push key es) c =
      response-guarded client cache resp_lpush _ c ∙ (pushes_silent client cache key es _).0
  dispatch_list-answer (push_back key es) c =
      response-guarded client cache resp_rpush _ c ∙ (pushes_silent client cache key es _).1
