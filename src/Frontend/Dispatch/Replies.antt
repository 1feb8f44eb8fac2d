-- ===== src/Frontend/Dispatch/Replies.antt =====
-- The replies to every RESP request, held against an independent description of them.
use momento_proxy.Base.{◌≡◌, ◌∙◌, ◌++◌, Bytes, String, length}
use momento_proxy.Base.Exec.{Result, ok, err, raise}
use momento_proxy.Error.{ProxyError, unsupported_command}
use momento_proxy.Client.{Floats, Client}
use momento_proxy.Context.{Context}
use momento_proxy.Metrics.Endpoints.{resp_del, resp_get, resp_set, resp_unimplemented}
use momento_proxy.Resp.Wire.{encode}
use momento_proxy.Resp.Answers.{response, answer}
use momento_proxy.Resp.Chains.{and_then}
use momento_proxy.Resp.Hash.Replies.{value_or_nil, count_reply}
use momento_proxy.Resp.Strings.Replies.{deletes, set_answer, get-answer, set-answer, del-answer}
use momento_proxy.Frontend.Dispatch.{
  Request, del, get, set, hash, list, sets, sorted_set, other, dispatch,
}
use momento_proxy.Frontend.Dispatch.Hashes.{response-guarded, hash_answer, dispatch_hash-answer}
use momento_proxy.Frontend.Dispatch.Elements.{list_answer, dispatch_list-answer}
use momento_proxy.Frontend.Dispatch.Members
use momento_proxy.Frontend.Dispatch.Members.{dispatch_set-answer}
use momento_proxy.Frontend.Dispatch.Scores.{sorted_set_answer, dispatch_sorted_set-answer}

module _ {F : Floats} (client : Client F) (cache : String) where
  open client use {State, MomentoError}

  -- What a request leaves in the response buffer, behind what was there, or its error.
  abbrev pub request_answer : Request F → Context State → Result (ProxyError MomentoError) Bytes
  request_answer (get key) c = answer value_or_nil c.response_buf (client.get cache key c.backend).0
  request_answer (set key value expire_time) c =
      set_answer client cache key value expire_time c.response_buf c.backend
  request_answer (del keys) c =
      and_then (deletes client cache keys c.backend)
        (λ _. ok (c.response_buf ++ encode (count_reply (length keys) tt)))
  request_answer (hash r) c = hash_answer client cache r c
  request_answer (list r) c = list_answer client cache r c
  request_answer (sets r) c = Members.set_answer client cache r c
  request_answer (sorted_set r) c = sorted_set_answer client cache r c
  request_answer (other command) c = err (unsupported_command command)

  pub dispatch-answer :
      (r : Request F) (c : Context State)
      → response (dispatch client cache r c) ≡ request_answer r c
  unfolding dispatch
  dispatch-answer (get key) c =
      response-guarded client cache resp_get _ c ∙ get-answer client cache key _
  dispatch-answer (set key value expire_time) c =
      response-guarded client cache resp_set _ c ∙ set-answer client cache key value expire_time _
  dispatch-answer (del keys) c =
      response-guarded client cache resp_del _ c ∙ del-answer client cache keys _
  dispatch-answer (hash r) c = (dispatch_hash-answer client cache r c).0
  dispatch-answer (list r) c = dispatch_list-answer client cache r c
  dispatch-answer (sets r) c = dispatch_set-answer client cache r c
  dispatch-answer (sorted_set r) c = dispatch_sorted_set-answer client cache r c
  dispatch-answer (other command) c =
      response-guarded client cache resp_unimplemented (raise (unsupported_command command)) c
