-- ===== src/Resp/Strings/Replies.antt =====
-- The replies of GET, SET and DEL.
use momento_proxy.Base.{
  ℕ, ◌≡◌, refl, ◌∙◌, Option, List, [], ◌∷◌, ◌++◌, append_assoc, map, Bytes, String, codes, length,
}
use momento_proxy.Base.Decimal.{decimal_int}
use momento_proxy.Base.Exec.{Result, ok, err, panicked, lift, ◌>>◌, ◌>>=◌, for_each}
use momento_proxy.Error.{ProxyError, is_done, is_failed, is_elapsed, ends, Lookup, hit, miss}
use momento_proxy.Client.{Floats, Client}
use momento_proxy.Context.{Context, Handler, write, klogs}
use momento_proxy.Klog.{Status, klog_1}
use momento_proxy.Resp.Wire.{simple, encode, encode_item}
use momento_proxy.Resp.Answers.{response, answer, Writes, response-update_method_metrics}
use momento_proxy.Resp.Chains.{and_then, result_of}
use momento_proxy.Resp.Hash.Replies.{value_or_nil, count_reply}
use momento_proxy.Resp.Utils.{integer_line, command, update_method_metrics, count_error}
use momento_proxy.Resp.Strings.{
  ExpireTime, del_key, del, get_reply, get_value, get, set_ttl_millis, set_value, set,
}

module _ {F : Floats} (client : Client F) (cache : String) where
  open client use {State, MomentoError}

  get_reply-Writes :
      (key : Bytes) (r : Lookup Bytes)
      → Writes (get_reply client cache key r) (encode (value_or_nil r))
  unfolding get_reply encode encode_item
  get_reply-Writes key (hit v) = record { at = λ c. simp append_assoc }
  get_reply-Writes key miss = record { at = λ c. refl }

  get_value-answer :
      (key : Bytes) (c : Context State)
      → response (get_value client cache key c)
        ≡ answer value_or_nil c.response_buf (client.get cache key c.backend).0
  unfolding get_value
  get_value-answer key c = elim (ends (client.get cache key c.backend).0) [
    | is_done r e ↦ rw e ((get_reply-Writes key r).at _)
    | is_failed x e ↦ rw e
    | is_elapsed e ↦ rw e
  ]

  pub get-answer :
      (key : Bytes) (c : Context State)
      → response (get client cache key c)
        ≡ answer value_or_nil c.response_buf (client.get cache key c.backend).0
  unfolding get
  get-answer key c =
      response-update_method_metrics _ _ (get_value client cache key) c ∙ get_value-answer key _

  -- SET replies OK; its expire time has an effect only if it cannot be read.
  abbrev pub set_answer :
      Bytes → Bytes → Option ExpireTime → Bytes → State → Result (ProxyError MomentoError) Bytes
  set_answer key value expire_time buf t =
      and_then (set_ttl_millis client cache expire_time)
        λ _. answer (λ _. simple (codes "OK")) buf (client.set cache key value t).0

  set_value-answer :
      (key value : Bytes) (ttl : Option ℕ) (c : Context State)
      → response (set_value client cache key value ttl c)
        ≡ answer (λ _. simple (codes "OK")) c.response_buf (client.set cache key value c.backend).0
  unfolding set_value encode
  set_value-answer key value ttl c = elim (ends (client.set cache key value c.backend).0) [
    | is_done r e ↦ rw e refl
    | is_failed x e ↦ rw e
    | is_elapsed e ↦ rw e
  ]

  after_ttl :
      (r : Result (ProxyError MomentoError) (Option ℕ)) (key value : Bytes) (c : Context State)
      → response ((lift r >>= set_value client cache key value) c)
        ≡ and_then r (λ _.
          answer (λ _. simple (codes "OK")) c.response_buf (client.set cache key value c.backend).0)
  after_ttl (ok ttl) key value c = set_value-answer key value ttl c
  after_ttl (err e) key value c = refl
  after_ttl panicked key value c = refl

  pub set-answer :
      (key value : Bytes) (expire_time : Option ExpireTime) (c : Context State)
      → response (set client cache key value expire_time c)
        ≡ set_answer key value expire_time c.response_buf c.backend
  unfolding set
  set-answer key value expire_time c =
      response-update_method_metrics _ _
        (lift (set_ttl_millis client cache expire_time) >>= set_value client cache key value) c
      ∙ after_ttl (set_ttl_millis client cache expire_time) key value _

  -- The keys are deleted one after the other, up to the first that fails.
  abbrev pub deletes : List Bytes → State → Result (ProxyError MomentoError) (Unit {0})
  deletes [] t = ok tt
  deletes (key ∷ keys) t =
      and_then (result_of (client.delete cache key t).0)
        λ _. deletes keys (client.delete cache key t).1

  deletes-answer :
      (keys : List Bytes) (k : Handler State MomentoError (Unit {0})) (b : Bytes)
      (c : Context State)
      → Writes k b
      → response ((for_each keys (del_key client cache) >>= λ _. k) c)
        ≡ and_then (deletes keys c.backend) (λ _. ok (c.response_buf ++ b))
  unfolding del_key command update_method_metrics count_error
  deletes-answer [] k b c w = w.at c
  deletes-answer (key ∷ keys) k b c w = elim (ends (client.delete cache key c.backend).0) [
    | is_done r e ↦ rw e (deletes-answer keys k b _ w)
    | is_failed x e ↦ rw e
    | is_elapsed e ↦ rw e
  ]

  pub del-answer :
      (keys : List Bytes) (c : Context State)
      → response (del client cache keys c)
        ≡ and_then
            (deletes keys c.backend)
            (λ _. ok (c.response_buf ++ encode (count_reply (length keys) tt)))
  unfolding del encode encode_item decimal_int
  del-answer keys c =
      deletes-answer keys
        (write (integer_line (length keys))
          >> klogs (map (λ key. klog_1 "del" key Status.deleted 0) keys))
        (integer_line (length keys)) c (record { at = λ d. refl })
