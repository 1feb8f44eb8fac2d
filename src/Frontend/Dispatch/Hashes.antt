-- ===== src/Frontend/Dispatch/Hashes.antt =====
-- The replies to the hash commands, held against an independent description of them.
use momento_proxy.Base.{◌≡◌, refl, ◌∙◌, Bytes, String, length}
use momento_proxy.Base.Exec.{Result, ok, err, panicked}
use momento_proxy.Error.{ProxyError}
use momento_proxy.Client.{Floats, Client}
use momento_proxy.Context.{Context, Handler}
use momento_proxy.Metrics.Endpoints.{
  Endpoint, begin_shared, resp_hdel, resp_hexists, resp_hget, resp_hgetall, resp_hincrby,
  resp_hkeys, resp_hlen, resp_hmget, resp_hset, resp_hvals,
}
use momento_proxy.Resp.Answers.{response, answer, written}
use momento_proxy.Resp.Hash.Called.{
  hdel-backend, hmget-backend, hexists-backend, hget-backend, hgetall-backend, hkeys-backend,
  hlen-backend, hvals-backend, hincrby-backend, hset-backend,
}
use momento_proxy.Resp.Hash.Several.{keys_or_nothing, field_values, hkeys-answer, hmget-answer}
use momento_proxy.Resp.Hash.Replies.{
  value_or_nil, one_or_zero, size_or_zero, all_entries, all_values, count_reply, int_reply,
  hget-answer, hexists-answer, hdel-answer, hgetall-answer, hvals-answer, hlen-answer,
  hincrby-answer, hset-answer,
}
use momento_proxy.Frontend.Dispatch.{
  HashRequest, delete_fields, multi_get, exists, get_field, get_all, keys, len, values, incr_by,
  set_fields, finish_guard, with_rpc_call_guard, guarded, dispatch_hash,
}

module _ {S E : Type 0} where
  response-finish_guard :
      (r : Result (ProxyError E) (Unit {0}) × Context S)
      → response (finish_guard {S = S} {E = E} r) ≡ response r
  unfolding finish_guard
  response-finish_guard (ok _, c) = refl
  response-finish_guard (err e, c) = refl
  response-finish_guard (panicked, c) = refl

module _ {F : Floats} (client : Client F) (cache_name : String) where
  open client use {State, MomentoError}

  pub response-guarded :
      (rpc : Endpoint) (m : Handler State MomentoError (Unit {0})) (c : Context State)
      → response (guarded client cache_name rpc m c)
        ≡ response (m (record c { recorder = begin_shared rpc }))
  unfolding guarded with_rpc_call_guard
  response-guarded rpc m c = response-finish_guard _

  backend-finish_guard :
      (p : Result (ProxyError MomentoError) (Unit {0}) × Context State)
      → (finish_guard p).1.backend ≡ p.1.backend
  unfolding finish_guard
  backend-finish_guard (ok _, c) = refl
  backend-finish_guard (err _, c) = refl
  backend-finish_guard (panicked, c) = refl

  backend-guarded :
      (rpc : Endpoint) (m : Handler State MomentoError (Unit {0})) (c : Context State)
      → (guarded client cache_name rpc m c).1.backend
        ≡ (m (record c { recorder = begin_shared rpc })).1.backend
  unfolding guarded with_rpc_call_guard
  backend-guarded rpc m c = backend-finish_guard _

  -- What a hash command leaves in the response buffer: the reply for what the service returns, behind
  -- what was there, or the error of the service.
  abbrev pub hash_answer : HashRequest → Context State → Result (ProxyError MomentoError) Bytes
  hash_answer (delete_fields key fields) c =
      answer (count_reply (length fields)) c.response_buf
        (client.dictionary_remove_fields cache_name key fields c.backend).0
  hash_answer (multi_get key fields) c =
      written (field_values fields) c.response_buf
        (client.dictionary_get_fields cache_name key fields c.backend).0
  hash_answer (exists key field) c =
      answer one_or_zero c.response_buf
        (client.dictionary_get_field cache_name key field c.backend).0
  hash_answer (get_field key field) c =
      answer value_or_nil c.response_buf
        (client.dictionary_get_field cache_name key field c.backend).0
  hash_answer (get_all key) c =
      answer all_entries c.response_buf (client.dictionary_fetch cache_name key c.backend).0
  hash_answer (keys key) c =
      written keys_or_nothing c.response_buf (client.dictionary_fetch cache_name key c.backend).0
  hash_answer (len key) c =
      answer size_or_zero c.response_buf (client.dictionary_length cache_name key c.backend).0
  hash_answer (values key) c =
      answer all_values c.response_buf (client.dictionary_fetch cache_name key c.backend).0
  hash_answer (incr_by key field n) c =
      answer int_reply c.response_buf
        (client.dictionary_increment cache_name key field n c.backend).0
  hash_answer (set_fields key entries) c =
      answer (count_reply (length entries)) c.response_buf
        (client.dictionary_set_fields cache_name key entries c.backend).0

  -- The service after a hash command.
  abbrev pub hash_calls : HashRequest → State → State
  hash_calls (delete_fields key fields) t =
      (client.dictionary_remove_fields cache_name key fields t).1
  hash_calls (multi_get key fields) t = (client.dictionary_get_fields cache_name key fields t).1
  hash_calls (exists key field) t = (client.dictionary_get_field cache_name key field t).1
  hash_calls (get_field key field) t = (client.dictionary_get_field cache_name key field t).1
  hash_calls (get_all key) t = (client.dictionary_fetch cache_name key t).1
  hash_calls (keys key) t = (client.dictionary_fetch cache_name key t).1
  hash_calls (len key) t = (client.dictionary_length cache_name key t).1
  hash_calls (values key) t = (client.dictionary_fetch cache_name key t).1
  hash_calls (incr_by key field n) t = (client.dictionary_increment cache_name key field n t).1
  hash_calls (set_fields key entries) t = (client.dictionary_set_fields cache_name key entries t).1

  -- Every hash command makes the one call of the service that belongs to it and leaves the reply that hash_answer
  -- describes in the response buffer, or ends in the error or timeout of that call.
  pub dispatch_hash-answer :
      (r : HashRequest) (c : Context State)
      → (response (dispatch_hash client cache_name r c) ≡ hash_answer r c)
        × ((dispatch_hash client cache_name r c).1.backend ≡ hash_calls r c.backend)
  unfolding dispatch_hash
  dispatch_hash-answer (delete_fields key fields) c = (
    response-guarded resp_hdel _ c ∙ hdel-answer client cache_name key fields _,
    backend-guarded resp_hdel _ c ∙ hdel-backend client cache_name key fields _,
  )
  dispatch_hash-answer (multi_get key fields) c = (
    response-guarded resp_hmget _ c ∙ hmget-answer client cache_name key fields _,
    backend-guarded resp_hmget _ c ∙ hmget-backend client cache_name key fields _,
  )
  dispatch_hash-answer (exists key field) c = (
    response-guarded resp_hexists _ c ∙ hexists-answer client cache_name key field _,
    backend-guarded resp_hexists _ c ∙ hexists-backend client cache_name key field _,
  )
  dispatch_hash-answer (get_field key field) c = (
    response-guarded resp_hget _ c ∙ hget-answer client cache_name key field _,
    backend-guarded resp_hget _ c ∙ hget-backend client cache_name key field _,
  )
  dispatch_hash-answer (get_all key) c = (
    response-guarded resp_hgetall _ c ∙ hgetall-answer client cache_name key _,
    backend-guarded resp_hgetall _ c ∙ hgetall-backend client cache_name key _,
  )
  dispatch_hash-answer (keys key) c = (
    response-guarded resp_hkeys _ c ∙ hkeys-answer client cache_name key _,
    backend-guarded resp_hkeys _ c ∙ hkeys-backend client cache_name key _,
  )
  dispatch_hash-answer (len key) c = (
    response-guarded resp_hlen _ c ∙ hlen-answer client cache_name key _,
    backend-guarded resp_hlen _ c ∙ hlen-backend client cache_name key _,
  )
  dispatch_hash-answer (values key) c = (
    response-guarded resp_hvals _ c ∙ hvals-answer client cache_name key _,
    backend-guarded resp_hvals _ c ∙ hvals-backend client cache_name key _,
  )
  dispatch_hash-answer (incr_by key field n) c = (
    response-guarded resp_hincrby _ c ∙ hincrby-answer client cache_name key field n _,
    backend-guarded resp_hincrby _ c ∙ hincrby-backend client cache_name key field n _,
  )
  dispatch_hash-answer (set_fields key entries) c = (
    response-guarded resp_hset _ c ∙ hset-answer client cache_name key entries _,
    backend-guarded resp_hset _ c ∙ hset-backend client cache_name key entries _,
  )
