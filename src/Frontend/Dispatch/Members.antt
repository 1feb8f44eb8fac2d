-- ===== src/Frontend/Dispatch/Members.antt =====
-- The replies to the set commands, held against an independent description of them.
use momento_proxy.Base.{◌≡◌, ◌∙◌, ◌++◌, [], Bytes, String, length}
use momento_proxy.Base.Exec.{Result, ok}
use momento_proxy.Error.{ProxyError}
use momento_proxy.Client.{Floats, Client}
use momento_proxy.Context.{Context}
use momento_proxy.Metrics.Endpoints.{
  resp_sadd, resp_srem, resp_sdiff, resp_sunion, resp_sinter, resp_smembers, resp_sismember,
}
use momento_proxy.Resp.Wire.RoundTrip.Unterminated.{unterminated_array}
use momento_proxy.Resp.Answers.{response, answer, written}
use momento_proxy.Resp.Chains.{and_then}
use momento_proxy.Resp.Hash.Replies.{count_reply}
use momento_proxy.Resp.Sets.{diff_step, inter_step, member_of}
use momento_proxy.Resp.Sets.Loops.{union_sets, narrowed, sunion-answer, sdiff-answer, sinter-answer}
use momento_proxy.Resp.Sets.Replies.{
  members_bytes, yes_or_no, sadd-answer, srem-answer, smembers-answer, sismember-answer,
}
use momento_proxy.Frontend.Dispatch.{
  SetRequest, add, rem, diff, union, intersect, members, is_member, dispatch_set,
}
use momento_proxy.Frontend.Dispatch.Hashes.{response-guarded}

module _ {F : Floats} (client : Client F) (cache : String) where
  open client use {State, MomentoError}

  -- What a set command leaves in the response buffer, behind what was there, or its error. The sets are
  -- written without the line ends that a RESP array has, and SINTER writes nothing where the first set is
  -- missing.
  abbrev pub set_answer : SetRequest → Context State → Result (ProxyError MomentoError) Bytes
  set_answer (add key es) c =
      answer (count_reply (length es)) c.response_buf
        (client.set_add_elements cache key es c.backend).0
  set_answer (rem key es) c =
      answer (count_reply (length es)) c.response_buf
        (client.set_remove_elements cache key es c.backend).0
  set_answer (members key) c =
      written (members_bytes client.iterate) c.response_buf (client.set_fetch cache key c.backend).0
  set_answer (is_member key e) c =
      answer (λ r. yes_or_no (member_of client cache e r)) c.response_buf
        (client.set_fetch cache key c.backend).0
  set_answer (union ks) c =
      and_then (union_sets client cache [] ks c.backend)
        (λ s. ok (c.response_buf ++ unterminated_array (client.iterate s)))
  set_answer (diff ks) c =
      narrowed client cache diff_step (unterminated_array []) ks c.response_buf c.backend
  set_answer (intersect ks) c = narrowed client cache inter_step [] ks c.response_buf c.backend

  pub dispatch_set-answer :
      (r : SetRequest) (c : Context State)
      → response (dispatch_set client cache r c) ≡ set_answer r c
  unfolding dispatch_set
  dispatch_set-answer (add key es) c =
      response-guarded client cache resp_sadd _ c ∙ sadd-answer client cache key es _
  dispatch_set-answer (rem key es) c =
      response-guarded client cache resp_srem _ c ∙ srem-answer client cache key es _
  dispatch_set-answer (members key) c =
      response-guarded client cache resp_smembers _ c ∙ smembers-answer client cache key _
  dispatch_set-answer (is_member key e) c =
      response-guarded client cache resp_sismember _ c ∙ sismember-answer client cache key e _
  dispatch_set-answer (union ks) c =
      response-guarded client cache resp_sunion _ c ∙ sunion-answer client cache ks _
  dispatch_set-answer (diff ks) c =
      response-guarded client cache resp_sdiff _ c ∙ sdiff-answer client cache ks _
  dispatch_set-answer (intersect ks) c =
      response-guarded client cache resp_sinter _ c ∙ sinter-answer client cache ks _
