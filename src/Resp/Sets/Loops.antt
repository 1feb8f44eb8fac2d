-- ===== src/Resp/Sets/Loops.antt =====
-- The replies of SUNION, SDIFF and SINTER, which fetch several sets.
use momento_proxy.Base.{◌≡◌, refl, ap, ◌∙◌, sym, List, [], ◌∷◌, ◌++◌, append-nil, Bytes, String}
use momento_proxy.Base.Decimal.{decimal}
use momento_proxy.Base.Exec.{Result, ok, panicked, ◌>>=◌}
use momento_proxy.Error.{ProxyError, is_done, is_failed, is_elapsed, ends, Lookup, hit, miss}
use momento_proxy.Client.{Floats, Client}
use momento_proxy.Context.{Context}
use momento_proxy.Resp.Wire.RoundTrip.Unterminated.{unterminated_array}
use momento_proxy.Resp.Answers.{response, response-update_method_metrics}
use momento_proxy.Resp.Chains.{and_then, result_of}
use momento_proxy.Resp.Sets.{
  union_step, diff_step, inter_step, set_reply, union_keys, sunion, narrow_keys, sdiff_reply,
  sdiff_keys, sdiff, sinter_reply, sinter_keys, sinter,
}
use momento_proxy.Resp.Sets.Replies.{set_reply-Writes}

module _ {F : Floats} (client : Client F) (cache : String) where
  open client use {State, MomentoError}

  -- The set that SUNION makes, where each key is fetched in its turn.
  abbrev pub union_sets :
      List Bytes → List Bytes → State → Result (ProxyError MomentoError) (List Bytes)
  union_sets set [] t = ok set
  union_sets set (key ∷ keys) t =
      and_then (result_of (client.set_fetch cache key t).0)
        λ r. union_sets (union_step set r) keys (client.set_fetch cache key t).1

  -- The set that SDIFF or SINTER makes; no key is fetched once it is empty.
  abbrev pub narrow_sets :
      (List Bytes → Lookup (List Bytes) → List Bytes)
      → List Bytes
      → List Bytes
      → State
      → Result (ProxyError MomentoError) (List Bytes)
  narrow_sets step set [] t = ok set
  narrow_sets step [] (key ∷ keys) t = ok []
  narrow_sets step (x ∷ set) (key ∷ keys) t =
      and_then (result_of (client.set_fetch cache key t).0)
        λ r. narrow_sets step (step (x ∷ set) r) keys (client.set_fetch cache key t).1

  -- The reply once the first set is fetched; `absent` is what is written where it is missing.
  abbrev pub narrowed_from :
      (List Bytes → Lookup (List Bytes) → List Bytes)
      → Bytes
      → List Bytes
      → Lookup (List Bytes)
      → Bytes
      → State
      → Result (ProxyError MomentoError) Bytes
  narrowed_from step absent rest (hit values) buf t =
      and_then (narrow_sets step values rest t)
        (λ s. ok (buf ++ unterminated_array (client.iterate s)))
  narrowed_from step absent rest miss buf t = ok (buf ++ absent)

  -- The first set, narrowed by the others.
  abbrev pub narrowed :
      (List Bytes → Lookup (List Bytes) → List Bytes)
      → Bytes
      → List Bytes
      → Bytes
      → State
      → Result (ProxyError MomentoError) Bytes
  narrowed step absent [] buf t = panicked
  narrowed step absent (head ∷ rest) buf t =
      and_then (result_of (client.set_fetch cache head t).0)
        λ r. narrowed_from step absent rest r buf (client.set_fetch cache head t).1

  union_keys-answer :
      (keys set : List Bytes) (c : Context State)
      → response ((union_keys client cache set keys >>= set_reply client cache) c)
        ≡ and_then
            (union_sets set keys c.backend)
            (λ s. ok (c.response_buf ++ unterminated_array (client.iterate s)))
  unfolding union_keys
  union_keys-answer [] set c = (set_reply-Writes client cache set).at c
  union_keys-answer (key ∷ keys) set c = elim (ends (client.set_fetch cache key c.backend).0) [
    | is_done r e ↦ rw e (union_keys-answer keys (union_step set r) _)
    | is_failed x e ↦ rw e
    | is_elapsed e ↦ rw e
  ]

  narrow_keys-answer :
      (step : List Bytes → Lookup (List Bytes) → List Bytes) (keys set : List Bytes)
      (c : Context State)
      → response ((narrow_keys client cache step set keys >>= set_reply client cache) c)
        ≡ and_then
            (narrow_sets step set keys c.backend)
            (λ s. ok (c.response_buf ++ unterminated_array (client.iterate s)))
  unfolding narrow_keys
  narrow_keys-answer step [] set c = (set_reply-Writes client cache set).at c
  narrow_keys-answer step (key ∷ keys) [] c = (set_reply-Writes client cache []).at c
  narrow_keys-answer step (key ∷ keys) (x ∷ set) c =
      elim (ends (client.set_fetch cache key c.backend).0) [
        | is_done r e ↦ rw e (narrow_keys-answer step keys (step (x ∷ set) r) _)
        | is_failed x e ↦ rw e
        | is_elapsed e ↦ rw e
      ]

  pub sunion-answer :
      (keys : List Bytes) (c : Context State)
      → response (sunion client cache keys c)
        ≡ and_then
            (union_sets [] keys c.backend)
            (λ s. ok (c.response_buf ++ unterminated_array (client.iterate s)))
  unfolding sunion
  sunion-answer keys c =
      response-update_method_metrics _ _
        (union_keys client cache [] keys >>= set_reply client cache) c
      ∙ union_keys-answer keys [] _

  sdiff_reply-answer :
      (rest : List Bytes) (r : Lookup (List Bytes)) (c : Context State)
      → response (sdiff_reply client cache rest r c)
        ≡ narrowed_from diff_step (unterminated_array []) rest r c.response_buf c.backend
  unfolding sdiff_reply decimal
  sdiff_reply-answer rest (hit values) c = narrow_keys-answer diff_step rest values c
  sdiff_reply-answer rest miss c = refl

  sdiff_keys-answer :
      (keys : List Bytes) (c : Context State)
      → response (sdiff_keys client cache keys c)
        ≡ narrowed diff_step (unterminated_array []) keys c.response_buf c.backend
  unfolding sdiff_keys
  sdiff_keys-answer [] c = refl
  sdiff_keys-answer (head ∷ rest) c = elim (ends (client.set_fetch cache head c.backend).0) [
    | is_done r e ↦ rw e (sdiff_reply-answer rest r _)
    | is_failed x e ↦ rw e
    | is_elapsed e ↦ rw e
  ]

  pub sdiff-answer :
      (keys : List Bytes) (c : Context State)
      → response (sdiff client cache keys c)
        ≡ narrowed diff_step (unterminated_array []) keys c.response_buf c.backend
  unfolding sdiff
  sdiff-answer keys c =
      response-update_method_metrics _ _ (sdiff_keys client cache keys) c ∙ sdiff_keys-answer keys _

  sinter_reply-answer :
      (rest : List Bytes) (r : Lookup (List Bytes)) (c : Context State)
      → response (sinter_reply client cache rest r c)
        ≡ narrowed_from inter_step [] rest r c.response_buf c.backend
  unfolding sinter_reply
  sinter_reply-answer rest (hit values) c = narrow_keys-answer inter_step rest values c
  sinter_reply-answer rest miss c = ap ok (sym (append-nil c.response_buf))

  sinter_keys-answer :
      (keys : List Bytes) (c : Context State)
      → response (sinter_keys client cache keys c)
        ≡ narrowed inter_step [] keys c.response_buf c.backend
  unfolding sinter_keys
  sinter_keys-answer [] c = refl
  sinter_keys-answer (head ∷ rest) c = elim (ends (client.set_fetch cache head c.backend).0) [
    | is_done r e ↦ rw e (sinter_reply-answer rest r _)
    | is_failed x e ↦ rw e
    | is_elapsed e ↦ rw e
  ]

  pub sinter-answer :
      (keys : List Bytes) (c : Context State)
      → response (sinter client cache keys c) ≡ narrowed inter_step [] keys c.response_buf c.backend
  unfolding sinter
  sinter-answer keys c =
      response-update_method_metrics _ _ (sinter_keys client cache keys) c
      ∙ sinter_keys-answer keys _
