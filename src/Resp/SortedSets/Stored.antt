-- ===== src/Resp/SortedSets/Stored.antt =====
-- The replies of ZADD and ZUNIONSTORE.
use mathlib.Core.List.{zip}
use momento_proxy.Base.{
  ◌≡◌, refl, ap, ◌∙◌, Bool, true, false, Option, none, some, List, [], ◌∷◌, map, Bytes, length,
  String, if◌then◌else◌,
}
use momento_proxy.Base.Int.{pos}
use momento_proxy.Base.Decimal.{decimal_int}
use momento_proxy.Base.Exec.{Result, ok, err, panicked, lift, pure, continue, ◌>>=◌}
use momento_proxy.Error.{ProxyError, io}
use momento_proxy.Client.{Floats, Client, AggregateFunction}
use momento_proxy.Klog.{Status, klog_1}
use momento_proxy.Context.{Context, Handler}
use momento_proxy.Resp.Wire.{integer, item, encode, encode_item}
use momento_proxy.Resp.Answers.{response, answer, response-update_method_metrics}
use momento_proxy.Resp.Chains.{and_then, and_then-ap}
use momento_proxy.Resp.Hash.Replies.{count_reply}
use momento_proxy.Resp.SortedSets.{finite_score, finite_increment, logged_write}
use momento_proxy.Resp.SortedSets.Replies.{score_item, zincrby-answer}
use momento_proxy.Resp.SortedSets.Called.{called-answer}
use momento_proxy.Resp.SortedSets.Meant.{has_unsupported, added_score, increment_score, sum_unless}
use momento_proxy.Resp.SortedSets.Stores.{
  AddArgs, unsupported, zadd, zadd_checked, store_union, store_sources, zadd_incr, zadd_put,
  weight_of, weighted, sources_of, aggregate_of, zunionstore,
}

module _ {S E : Type 0} where
  after_result :
      {B : Type 0}
      → (r : Result (ProxyError E) B) (k : B → Handler S E (Unit {0})) (c : Context S)
      → response (continue r k c) ≡ and_then r (λ b. response (k b c))
  after_result (ok b) k c = refl
  after_result (err e) k c = refl
  after_result panicked k c = refl

  after_pair :
      {B : Type 0}
      → (m : Handler S E B) (r : Result (ProxyError E) B) (k : B → Handler S E (Unit {0}))
        (c : Context S)
      → m c ≡ (r, c)
      → response ((m >>= k) c) ≡ and_then r (λ b. response (k b c))
  after_pair m r k c h = ap (λ p. response (continue p.0 k p.1)) h ∙ after_result r k c

  -- A result, then a handler that leaves the state as it is.
  lifted_pair :
      {A B : Type 0}
      → (r : Result (ProxyError E) A) (g : A → Handler S E B) (f : A → Result (ProxyError E) B)
        (c : Context S)
      → ((a : A) → g a c ≡ (f a, c))
      → (lift r >>= g) c ≡ (and_then r f, c)
  lifted_pair (ok a) g f c h = h a
  lifted_pair (err e) g f c h = refl
  lifted_pair panicked g f c h = refl

  mapped_pair :
      {A B : Type 0}
      → (r : Result (ProxyError E) A) (h : A → B) (c : Context S)
      → continue r (λ a. pure (h a)) c ≡ (and_then r (λ a. ok (h a)), c)
  mapped_pair (ok a) h c = refl
  mapped_pair (err e) h c = refl
  mapped_pair panicked h c = refl

module _ {F : Floats} (client : Client F) (cache : String) (key : Bytes) where
  open client use {State, MomentoError}
  open F use {F64, F32}

  abbrev pub increment_answer :
      List (F64 × Bytes) → Bytes → State → Result (ProxyError MomentoError) Bytes
  increment_answer [] buf t = panicked
  increment_answer ((s, m) ∷ _) buf t =
      answer (λ x. item (score_item F x)) buf
        (client.sorted_set_increment_score cache key m (increment_score F s) t).0

  -- What ZADD replies: the number of members, or with INCR the new score of the first member; the options that
  -- Momento does not have are an error.
  abbrev pub add_answer :
      List (F64 × Bytes) → AddArgs → Bytes → State → Result (ProxyError MomentoError) Bytes
  add_answer members args buf t =
      if has_unsupported args
      then err (io "Momento proxy does not support CH, XX, NX, GT, or LT optional arguments")
      else if args.incr
      then increment_answer members buf t
      else answer (count_reply (length members)) buf
          (client.sorted_set_put_elements cache key (map (λ m. (added_score F m.0, m.1)) members)
            t).0

  zadd_put-answer :
      (members : List (F64 × Bytes)) (c : Context State)
      → response (zadd_put client cache key members c)
        ≡ answer
            (count_reply (length members))
            c.response_buf
            (client.sorted_set_put_elements cache key
              (map (λ m. (finite_score F m.0, m.1)) members)
              c.backend).0
  unfolding zadd_put logged_write encode encode_item decimal_int
  zadd_put-answer members =
      called-answer
        (client.sorted_set_put_elements cache key (map (λ m. (finite_score F m.0, m.1)) members))
        (klog_1 "zadd" key Status.server_error 0) (klog_1 "zadd" key Status.timeout 0) _
        (count_reply (length members)) (λ _. record { at = λ c. refl })

  zadd_incr-answer :
      (members : List (F64 × Bytes)) (c : Context State)
      → response (zadd_incr client cache key members c)
        ≡ increment_answer members c.response_buf c.backend
  unfolding zadd_incr finite_increment
  zadd_incr-answer [] c = refl
  zadd_incr-answer ((s, m) ∷ _) c = zincrby-answer client cache key s m c

  if_response :
      (b : Bool) (m n : Handler State MomentoError (Unit {0})) (c : Context State)
      (x y : Result (ProxyError MomentoError) Bytes)
      → response (m c) ≡ x
      → response (n c) ≡ y
      → response ((if b then m else n) c) ≡ (if b then x else y)
  if_response true m n c x y h k = h
  if_response false m n c x y h k = k

  zadd_checked-answer :
      (members : List (F64 × Bytes)) (args : AddArgs) (c : Context State)
      → response (zadd_checked client cache key members args c)
        ≡ add_answer members args c.response_buf c.backend
  unfolding zadd_checked unsupported finite_score
  zadd_checked-answer members args c = if_response (unsupported client cache args) _ _ c _ _ refl (
      if_response args.incr (zadd_incr client cache key members) (zadd_put client cache key members)
        c _ _ (zadd_incr-answer members c) (zadd_put-answer members c))

  pub zadd-answer :
      (members : List (F64 × Bytes)) (args : AddArgs) (c : Context State)
      → response (zadd client cache key members args c)
        ≡ add_answer members args c.response_buf c.backend
  unfolding zadd
  zadd-answer members args c =
      response-update_method_metrics _ _ (zadd_checked client cache key members args) c
      ∙ zadd_checked-answer members args _

  -- The sources of a union with their weights, or the error of a weight that cannot be read.
  abbrev pub weights_of :
      List (Bytes × Bytes) → Result (ProxyError MomentoError) (List (Bytes × F32))
  weights_of [] = ok []
  weights_of ((s, w) ∷ l) =
      and_then (weight_of client cache w) λ x. and_then (weights_of l) λ rest. ok ((s, x) ∷ rest)

  abbrev pub weighted_sources :
      List Bytes → Option (List Bytes) → Result (ProxyError MomentoError) (List (Bytes × F32))
  weighted_sources ks none = ok (map (λ k. (k, F.one)) ks)
  weighted_sources ks (some ws) = weights_of (zip ks ws)

  weighted_lem :
      (l : List (Bytes × Bytes)) (c : Context State) → weighted client cache l c ≡ (weights_of l, c)
  unfolding weighted
  weighted_lem [] c = refl
  weighted_lem ((s, w) ∷ l) c = lifted_pair (weight_of client cache w) _ _ c λ x.
      ap (λ p. continue p.0 (λ rest. pure ((s, x) ∷ rest)) p.1) (weighted_lem l c)
      ∙ mapped_pair (weights_of l) (λ rest. (s, x) ∷ rest) c

  sources_of_lem :
      (ks : List Bytes) (ws : Option (List Bytes)) (c : Context State)
      → sources_of client cache ks ws c ≡ (weighted_sources ks ws, c)
  unfolding sources_of
  sources_of_lem ks none c = refl
  sources_of_lem ks (some ws) c = weighted_lem (zip ks ws) c

  -- What ZUNIONSTORE replies: the number of the members of the union.
  abbrev pub union_answer :
      List Bytes
      → Option (List Bytes)
      → Option AggregateFunction
      → Bytes
      → State
      → Result (ProxyError MomentoError) Bytes
  union_answer ks ws f buf t = and_then (weighted_sources ks ws) λ sources.
      answer (λ n. item (integer (pos n))) buf
        (client.sorted_set_union_store cache key sources (sum_unless f) t).0

  store_sources-answer :
      (f : AggregateFunction) (sources : List (Bytes × F32)) (c : Context State)
      → response (store_sources client cache key f sources c)
        ≡ answer
            (λ n. item (integer (pos n)))
            c.response_buf
            (client.sorted_set_union_store cache key sources f c.backend).0
  unfolding store_sources logged_write encode encode_item decimal_int
  store_sources-answer f sources =
      called-answer (client.sorted_set_union_store cache key sources f)
        (klog_1 "zunionstore" key Status.server_error 0) (klog_1 "zunionstore" key Status.timeout 0)
        _ (λ n. item (integer (pos n))) (λ _. record { at = λ c. refl })

  store_union-answer :
      (ks : List Bytes) (ws : Option (List Bytes)) (f : Option AggregateFunction)
      (c : Context State)
      → response (store_union client cache key ks ws f c)
        ≡ union_answer ks ws f c.response_buf c.backend
  unfolding store_union
  store_union-answer ks ws f c =
      after_pair (sources_of client cache ks ws) (weighted_sources ks ws)
        (store_sources client cache key (aggregate_of client cache f)) c (sources_of_lem ks ws c)
      ∙ and_then-ap (weighted_sources ks ws) _ _
          λ sources. store_sources-answer (aggregate_of client cache f) sources c

  pub zunionstore-answer :
      (ks : List Bytes) (ws : Option (List Bytes)) (f : Option AggregateFunction)
      (c : Context State)
      → response (zunionstore client cache key ks ws f c)
        ≡ union_answer ks ws f c.response_buf c.backend
  unfolding zunionstore
  zunionstore-answer ks ws f c =
      response-update_method_metrics _ _ (store_union client cache key ks ws f) c
      ∙ store_union-answer ks ws f _
