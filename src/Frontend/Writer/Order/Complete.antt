-- ===== src/Frontend/Writer/Order/Complete.antt =====
-- The writer once every request has been answered.
use momento_proxy.Base.{
  ℕ, zero, suc, ◌+◌, ◌≤◌, ◌<◌, ◌≡◌, refl, ap, ◌∙◌, ◌≢◌, ◌⊎◌, inl, inr, true, false, Option, none,
  some, List, [], ◌∷◌, ◌++◌, Bytes, ◌==◌, length, take, get_elem?, concat_map, Option-cases,
  Bool-cases, ==_iff, subst, arith,
}
use momento_proxy.Frontend.Backlog.{
  lookup, insert, lookup-remove, lookup-insert, length-remove-lt, lookup_nil,
}
use momento_proxy.Frontend.Writer.{
  Message, answered, failed_request, Writer, initial, emit, drain, after_next, on_message, writer,
}
use momento_proxy.Frontend.Writer.Order.{
  Composes, Inv, AllGenuine, advance, advance-Inv, drain_step, emit-Inv, on_message-Inv, writer-Inv,
  initial-Inv,
}

module _ {A : Type 0} (compose : A → Option Bytes) (text : A → Bytes) (responses : List A) where
  abbrev Composes' : Type 0
  Composes' = Composes compose text responses

  abbrev Inv' : Writer A → Type 0
  Inv' = Inv compose text responses

  -- Request `i` has been answered: its response is sent, or held.
  abbrev Seen : ℕ → Writer A → Type 0
  Seen i w = (i < w.next_sequence) ⊎ (lookup i w.backlog ≢ none)

  -- Nothing that is held could be sent.
  abbrev Waiting : Writer A → Type 0
  Waiting w = lookup w.next_sequence w.backlog ≡ none

  emit-Seen : (i : ℕ) (w : Writer A) (a : A) → Seen i w → Seen i (emit compose a w)
  unfolding emit
  emit-Seen i w a s =
      elim (compose a)
        as (λ o. Seen i (elim o [
          | none ↦ record w { next_sequence = w.next_sequence + 1; alive = false }
          | some b ↦ record w {
            next_sequence = w.next_sequence + 1;
            write_buffer = w.write_buffer ++ b;
          }
        ])) [ none ↦ ground arith | some b ↦ ground arith ]

  advance-Seen :
      (i : ℕ) (w : Writer A) (a : A) → Seen i w → Seen i (advance compose text responses a w)
  unfolding emit
  advance-Seen i w a s = ground (arith, lookup-remove w.next_sequence i w.backlog)

  drain-Seen :
      (fuel i : ℕ) (w : Writer A) → Composes' → Inv' w → Seen i w → Seen i (drain compose fuel w)
  drain-Seen zero i w c v s = unfold drain in s
  drain-Seen (suc fuel) i w c v s = elim (Option-cases (lookup w.next_sequence w.backlog)) [
    | inl e ↦ unfold drain in rw (e, drain) s
    | inr (a, e) ↦
        let u = advance-Inv compose text responses w a c e v in
        rw (drain_step compose text responses fuel w a e u.alive)
          (drain-Seen fuel i (advance compose text responses a w) c u (advance-Seen i w a s))
  ]

  backlog-emit : (a : A) (w : Writer A) → (emit compose a w).backlog ≡ w.backlog
  unfolding emit
  backlog-emit a w = ground arith

  drain-Waiting :
      (fuel : ℕ) (w : Writer A)
      → Composes'
      → Inv' w
      → length w.backlog ≤ fuel
      → Waiting (drain compose fuel w)
  drain-Waiting zero w c v h = unfold drain in lookup_nil w.next_sequence w.backlog h
  drain-Waiting (suc fuel) w c v h = elim (Option-cases (lookup w.next_sequence w.backlog)) [
    | inl e ↦ unfold drain in rw (e, drain) e
    | inr (a, e) ↦
        let u = advance-Inv compose text responses w a c e v in
        rw (drain_step compose text responses fuel w a e u.alive) (
          drain-Waiting fuel (advance compose text responses a w) c u
            (rw (backlog-emit a _) (omega (arith, length-remove-lt w.next_sequence a w.backlog e))))
  ]

  after_next-Seen :
      (i : ℕ) (w : Writer A) → Composes' → Inv' w → Seen i w → Seen i (after_next compose w)
  unfolding after_next
  after_next-Seen i w c v s = simp v.alive (drain-Seen (length w.backlog) i w c v s)

  after_next-Waiting : (w : Writer A) → Composes' → Inv' w → Waiting (after_next compose w)
  unfolding after_next
  after_next-Waiting w c v = simp v.alive (drain-Waiting (length w.backlog) w c v (omega arith))

  emit-own : (w : Writer A) (a : A) → w.next_sequence < (emit compose a w).next_sequence
  unfolding emit
  emit-own w a = ground arith

  emit_next-Inv :
      (k : ℕ) (a : A) (w : Writer A)
      → Composes'
      → get_elem? responses k ≡ some a
      → (k == w.next_sequence) ≡ true
      → Inv' w
      → Inv' (emit compose a w)
  emit_next-Inv k a w c g e v =
      emit-Inv compose text responses w a c
        (subst (λ j. get_elem? responses j ≡ some a) ((==_iff k w.next_sequence).0 e) g) v

  emit_or_own-Seen :
      (i k : ℕ) (w : Writer A) (a : A)
      → (k == w.next_sequence) ≡ true
      → Seen i w ⊎ (i ≡ k)
      → Seen i (emit compose a w)
  emit_or_own-Seen i k w a e (inl s) = emit-Seen i w a s
  emit_or_own-Seen i k w a e (inr p) =
      inl (omega (arith, emit-own w a, p, (==_iff k w.next_sequence).0 e))

  insert-Seen :
      (i k : ℕ) (w : Writer A) (a : A)
      → Seen i w ⊎ (i ≡ k)
      → Seen i (record w { backlog = insert k a w.backlog })
  insert-Seen i k w a s = ground (arith, lookup-insert k i a w.backlog)

  -- A message keeps what is seen, adds its own request, and leaves nothing that could be sent.
  on_message-Seen :
      (i k : ℕ) (a : A) (w : Writer A)
      → Composes'
      → get_elem? responses k ≡ some a
      → Inv' w
      → Seen i w ⊎ (i ≡ k)
      → Seen i (on_message compose (answered k a) w)
  unfolding on_message
  on_message-Seen i k a w c g v s = elim (Bool-cases (k == w.next_sequence)) [
    | inl e ↦ rw e (
        after_next-Seen i (emit compose a w) c (emit_next-Inv k a w c g e v)
          (emit_or_own-Seen i k w a e s))
    | inr e ↦ rw e (insert-Seen i k w a s)
  ]

  on_message-Waiting :
      (k : ℕ) (a : A) (w : Writer A)
      → Composes'
      → get_elem? responses k ≡ some a
      → Inv' w
      → Waiting w
      → Waiting (on_message compose (answered k a) w)
  unfolding on_message
  on_message-Waiting k a w c g v s = elim (Bool-cases (k == w.next_sequence)) [
    | inl e ↦ rw e (after_next-Waiting (emit compose a w) c (emit_next-Inv k a w c g e v))
    | inr e ↦ rw e (ground (arith, lookup-insert k w.next_sequence a w.backlog))
  ]

  -- A response with the number `i` is among the messages.
  abbrev pub Answered : ℕ → List (Message A) → Type 0
  Answered i [] = ⊥
  Answered i (answered k a ∷ ms) = (i ≡ k) ⊎ Answered i ms
  Answered i (failed_request ∷ ms) = Answered i ms

  writer-Seen :
      (i : ℕ) (ms : List (Message A)) (w : Writer A)
      → Composes'
      → AllGenuine compose text responses ms
      → Inv' w
      → Seen i w ⊎ Answered i ms
      → Seen i (writer compose ms w)
  unfolding writer
  writer-Seen i [] w c g v (inl s) = s
  writer-Seen i [] w c g v (inr h) = absurd h
  writer-Seen i (answered k a ∷ ms) w c (g, gs) v s = simp v.alive (
      writer-Seen i ms (on_message compose (answered k a) w) c gs
        (on_message-Inv compose text responses (answered k a) w c g v) (first s))
    where
      first :
          Seen i w ⊎ ((i ≡ k) ⊎ Answered i ms)
          → Seen i (on_message compose (answered k a) w) ⊎ Answered i ms
      first (inl s) = inl (on_message-Seen i k a w c g v (inl s))
      first (inr (inl p)) = inl (on_message-Seen i k a w c g v (inr p))
      first (inr (inr h)) = inr h
  writer-Seen i (failed_request ∷ ms) w c (g, gs) v s = absurd g

  writer-Waiting :
      (ms : List (Message A)) (w : Writer A)
      → Composes'
      → AllGenuine compose text responses ms
      → Inv' w
      → Waiting w
      → Waiting (writer compose ms w)
  unfolding writer
  writer-Waiting [] w c g v h = h
  writer-Waiting (answered k a ∷ ms) w c (g, gs) v h = simp v.alive (
      writer-Waiting ms (on_message compose (answered k a) w) c gs
        (on_message-Inv compose text responses (answered k a) w c g v)
        (on_message-Waiting k a w c g v h))
  writer-Waiting (failed_request ∷ ms) w c (g, gs) v h = absurd g

  take_all : (rs : List A) (n : ℕ) → length rs ≤ n → take n rs ≡ rs
  take_all [] zero h = refl
  take_all [] (suc n) h = refl
  take_all (r ∷ rs) zero h = absurd (omega arith)
  take_all (r ∷ rs) (suc n) h = ap (◌∷◌ r) (take_all rs n (omega arith))

  next_reaches :
      (w : Writer A)
      → Waiting w
      → ((i : ℕ) → i < length responses → Seen i w)
      → length responses ≤ w.next_sequence
  next_reaches w h s = grind (arith, s w.next_sequence)

  -- When every request's response has arrived, in whatever order and however often, the buffer holds the
  -- texts of all the responses in the order of the requests, and the writer is alive.
  pub writer_sends_all :
      (ms : List (Message A))
      → Composes compose text responses
      → AllGenuine compose text responses ms
      → ((i : ℕ) → i < length responses → Answered i ms)
      → ((writer compose ms initial).write_buffer ≡ concat_map text responses)
        × ((writer compose ms initial).alive ≡ true)
  writer_sends_all ms c g all =
      let v0 = initial-Inv compose text responses in
      let v = writer-Inv compose text responses ms initial c g v0 in
      let reached =
        next_reaches (writer compose ms initial)
          (writer-Waiting ms initial c g v0 (unfold lookup in refl))
          (λ i h. writer-Seen i ms initial c g v0 (inr (all i h))) in
      (v.sent ∙ ap (concat_map text) (take_all responses _ reached), v.alive)
