-- ===== src/Resp/Answers.antt =====
-- How a command ends, as a client can tell: with a reply behind what the buffer held, or with an
-- error. This is the vocabulary of the theorems about commands; nothing here is code of the proxy.
use momento_proxy.Base.{
  ℕ, ◌≡◌, refl, sym, ◌∙◌, subst, List, [], ◌∷◌, ◌++◌, append_assoc, append-nil, Bytes, map,
  concat_map, concat_map-map, length, length-map,
}
use momento_proxy.Base.Exec.{Result, ok, err, panicked, continue, ◌>>=◌, for_each}
use momento_proxy.Error.{
  ProxyError, momento, timeout, Outcome, done, failed, elapsed, is_done, is_failed, is_elapsed,
  ends,
}
use momento_proxy.Client.{Rpc}
use momento_proxy.Metrics.{Counter, Event, add}
use momento_proxy.Context.{Context, Handler, event, write, buf_len, klog}
use momento_proxy.Resp.Wire.{Reply, Item, bulk, array, encode, encode_item}
use momento_proxy.Resp.Wire.RoundTrip.Unterminated.{unterminated}
use momento_proxy.Resp.Utils.{
  write_unterminated, command, count_error, update_method_metrics, write_bulks, array_header,
}

module _ {S E : Type 0} where
  -- The response buffer at the end of a handler, or its error.
  abbrev pub response : Result (ProxyError E) (Unit {0}) × Context S → Result (ProxyError E) Bytes
  response (ok _, c) = ok c.response_buf
  response (err e, c) = err e
  response (panicked, c) = panicked

  -- A handler that ends well and appends `b` to the buffer.
  pub record Writes (m : Handler S E (Unit {0})) (b : Bytes) : Type 0 where
    pub at : (c : Context S) → response (m c) ≡ ok (c.response_buf ++ b)

  after_ok :
      (r : Result (ProxyError E) (Unit {0}) × Context S) (n : Handler S E (Unit {0}))
      (b buf : Bytes)
      → response r ≡ ok buf
      → Writes n b
      → response (continue r.0 (λ _. n) r.1) ≡ ok (buf ++ b)
  after_ok (ok _, c) n b buf h w = cc (w.at c)
  after_ok (err _, c) n b buf h w = cc
  after_ok (panicked, c) n b buf h w = cc

  pub Writes-bind :
      (m n : Handler S E (Unit {0})) (b d : Bytes)
      → Writes m b
      → Writes n d
      → Writes (m >>= λ _. n) (b ++ d)
  Writes-bind m n b d hm hn = record {
    at = λ c. rw (← append_assoc) (after_ok (m c) n d (c.response_buf ++ b) (hm.at c) hn);
  }

  pub Writes-for_each :
      {A : Type 0} (body : A → Handler S E (Unit {0})) (f : A → Bytes)
      → ((a : A) → Writes (body a) (f a))
      → (xs : List A) → Writes (for_each xs body) (concat_map f xs)
  Writes-for_each body f w [] = record { at = λ c. simp append-nil }
  Writes-for_each body f w (x ∷ xs) =
      Writes-bind (body x) (for_each xs body) (f x) (concat_map f xs) (w x)
        (Writes-for_each body f w xs)

  response-count_error :
      (count_ex : Counter) (r : Result (ProxyError E) (Unit {0}) × Context S)
      → response (count_error count_ex r) ≡ response r
  unfolding count_error
  response-count_error count_ex (ok _, c) = refl
  response-count_error count_ex (err _, c) = refl
  response-count_error count_ex (panicked, c) = refl

  -- The counters leave the response as it is.
  pub response-update_method_metrics :
      (count count_ex : Counter) (m : Handler S E (Unit {0})) (c : Context S)
      → response (update_method_metrics count count_ex m c)
        ≡ response (m (record c { events = c.events ++ add count 1 ∷ [] }))
  unfolding update_method_metrics
  response-update_method_metrics count count_ex m c = response-count_error count_ex _

module _ {S E : Type 0} where
  pub write_bulks-Writes :
      (values : List Bytes)
      → Writes (write_bulks {S = S} {E = E} values) (concat_map encode_item (map bulk values))
  unfolding write_bulks encode_item
  write_bulks-Writes values = rw (concat_map-map encode_item bulk values) (
      Writes-for_each _ (λ v. encode_item (bulk v)) (λ v. record { at = λ c. simp append_assoc })
        values)

  pub write_unterminated-Writes :
      (values : List Bytes)
      → Writes (write_unterminated {S = S} {E = E} values) (concat_map unterminated values)
  unfolding write_unterminated
  write_unterminated-Writes values =
      Writes-for_each _ unterminated (λ v. record { at = λ c. simp append_assoc }) values

  pub event-Writes : (e : Event) → Writes (event {S = S} {E = E} e) []
  event-Writes e = record { at = λ c. simp append-nil }

  -- What most commands log after the reply.
  pub klog_len-Writes :
      (line : ℕ → Bytes) → Writes (buf_len {S = S} {E = E} >>= λ n. klog (line n)) []
  klog_len-Writes line = record { at = λ c. simp append-nil }

  -- Counting, a header, a loop and a log line.
  pub block-Writes :
      (pre m post : Handler S E (Unit {0})) (head b : Bytes)
      → Writes pre []
      → Writes m b
      → Writes post []
      → Writes (pre >>= λ _. (write head >>= λ _. (m >>= λ _. post))) (head ++ b)
  block-Writes pre m post head b h k l =
      subst (λ t. Writes (pre >>= λ _. (write head >>= λ _. (m >>= λ _. post))) (head ++ t))
        (append-nil b)
        (Writes-bind pre _ [] (head ++ (b ++ [])) h (
          Writes-bind (write head) _ head (b ++ []) (record { at = λ c. refl })
            (Writes-bind m post b [] k l)))

  -- A header, a loop and what writes nothing.
  pub headed-Writes :
      (m post : Handler S E (Unit {0})) (head b : Bytes)
      → Writes m b
      → Writes post []
      → Writes (write head >>= λ _. (m >>= λ _. post)) (head ++ b)
  headed-Writes m post head b h k =
      subst (λ t. Writes (write head >>= λ _. (m >>= λ _. post)) (head ++ t)) (append-nil b)
        (Writes-bind (write head) _ head (b ++ []) (record { at = λ c. refl })
          (Writes-bind m post b [] h k))

-- An array is its header and its items.
pub array-bytes :
    (items : List Item)
    → array_header (length items) ++ concat_map encode_item items ≡ encode (array items)
unfolding encode
array-bytes items = simp append_assoc

module _ {S E : Type 0} (pre m post : Handler S E (Unit {0})) where
  -- The block of a command that replies with an array.
  pub array-Writes :
      (n : ℕ) (items : List Item)
      → n ≡ length items
      → Writes pre []
      → Writes m (concat_map encode_item items)
      → Writes post []
      → Writes
          (pre >>= λ _. (write (array_header n) >>= λ _. (m >>= λ _. post)))
          (encode (array items))
  array-Writes n items h p q r = rw h (
      subst (Writes _) (array-bytes items) (
        block-Writes pre m post (array_header (length items)) (concat_map encode_item items) p q r))

module _ {S E : Type 0} (pre post : Handler S E (Unit {0})) where
  pub bulks-Writes :
      (n : ℕ) (values : List Bytes)
      → n ≡ length values
      → Writes pre []
      → Writes post []
      → Writes
          (pre >>= λ _. (write (array_header n) >>= λ _. (write_bulks values >>= λ _. post)))
          (encode (array (map bulk values)))
  bulks-Writes n values h p r =
      array-Writes pre (write_bulks values) post n (map bulk values)
        (h ∙ sym (length-map bulk values)) p (write_bulks-Writes values) r

module _ {E A : Type 0} where
  -- The reply that `f` gives for the answer of the service, behind `buf`.
  abbrev pub answer : (A → Reply) → Bytes → Outcome E A → Result (ProxyError E) Bytes
  answer f buf (done a) = ok (buf ++ encode (f a))
  answer f buf (failed e) = err (momento e)
  answer f buf elapsed = err timeout

  -- The bytes that `f` gives for it.
  abbrev pub written : (A → Bytes) → Bytes → Outcome E A → Result (ProxyError E) Bytes
  written f buf (done a) = ok (buf ++ f a)
  written f buf (failed e) = err (momento e)
  written f buf elapsed = err timeout

  pub written-answer :
      (f : A → Reply) (buf : Bytes) (o : Outcome E A)
      → written (λ a. encode (f a)) buf o ≡ answer f buf o
  written-answer f buf (done a) = refl
  written-answer f buf (failed e) = refl
  written-answer f buf elapsed = refl

module _ {S E A : Type 0} where
  pub command-written :
      (count count_ex : Counter) (rpc : Rpc S E A) (on_error on_timeout : List Bytes)
      (reply : A → Handler S E (Unit {0})) (f : A → Bytes)
      → ((a : A) → Writes (reply a) (f a))
      → (c : Context S)
      → response (command count count_ex rpc on_error on_timeout reply c)
        ≡ written f c.response_buf (rpc c.backend).0
  unfolding command
  command-written count count_ex rpc on_error on_timeout reply f w c =
      rw response-update_method_metrics (elim (ends (rpc c.backend).0) [
        | is_done a e ↦ rw e ((w a).at _)
        | is_failed x e ↦ rw e
        | is_elapsed e ↦ rw e
      ])

  pub command-answer :
      (count count_ex : Counter) (rpc : Rpc S E A) (on_error on_timeout : List Bytes)
      (reply : A → Handler S E (Unit {0})) (f : A → Reply)
      → ((a : A) → Writes (reply a) (encode (f a)))
      → (c : Context S)
      → response (command count count_ex rpc on_error on_timeout reply c)
        ≡ answer f c.response_buf (rpc c.backend).0
  command-answer count count_ex rpc on_error on_timeout reply f w c =
      command-written count count_ex rpc on_error on_timeout reply (λ a. encode (f a)) w c
      ∙ written-answer f c.response_buf (rpc c.backend).0
