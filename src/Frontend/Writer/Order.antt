-- ===== src/Frontend/Writer/Order.antt =====
-- The order of the responses that the writer sends.
pub mod Complete
use native.Mathlib.Numerals.{add-one}
use momento_proxy.Base.{
  ℕ, zero, suc, ◌+◌, ◌≤◌, ◌<◌, ◌≡◌, refl, sym, ap, ◌∙◌, ◌≢◌, ◌⊎◌, inl, inr, Bool, true, false,
  Option, none, some, List, [], ◌∷◌, ◌++◌, append_assoc, append-nil, Bytes, ◌==◌, if◌then◌else◌,
  length, take, get_elem?, concat_map, Option-cases, Bool-cases, ==_iff, subst, arith,
}
use momento_proxy.Frontend.Backlog.{
  lookup, remove, insert, lookup-remove, lookup-insert, length-remove-lt, lookup_nil,
}
use momento_proxy.Frontend.Writer.{
  Message, answered, failed_request, Writer, initial, emit, drain, after_next, on_message, writer,
}

-- The responses in the order of their requests, and what they are composed to.
module _ {A : Type 0} (compose : A → Option Bytes) (text : A → Bytes) (responses : List A) where
  abbrev pub Composes : Type 0
  Composes = (i : ℕ) (a : A) → get_elem? responses i ≡ some a → compose a ≡ some (text a)

  -- The writer has sent the first responses, and holds only later ones, each under its number.
  pub record Inv (w : Writer A) : Type 0 where
    pub alive : w.alive ≡ true
    pub sent : w.write_buffer ≡ concat_map text (take w.next_sequence responses)
    pub within : w.next_sequence ≤ length responses
    pub held : (i : ℕ) (a : A) → lookup i w.backlog ≡ some a → get_elem? responses i ≡ some a

  take-suc :
      (rs : List A) (n : ℕ) (a : A)
      → get_elem? rs n ≡ some a
      → concat_map text (take (suc n) rs) ≡ concat_map text (take n rs) ++ text a
  take-suc [] n a h = cc
  take-suc (r ∷ rs) zero a h = simp append-nil (cc)
  take-suc (r ∷ rs) (suc n) a h = rw (take-suc rs n a h) (sym (append_assoc (text r) _ (text a)))

  get_elem?-lt : (rs : List A) (n : ℕ) (a : A) → get_elem? rs n ≡ some a → n < length rs
  get_elem?-lt [] n a h = cc
  get_elem?-lt (r ∷ rs) zero a h = omega arith
  get_elem?-lt (r ∷ rs) (suc n) a h = omega (arith, get_elem?-lt rs n a h)

  emit-Inv :
      (w : Writer A) (a : A)
      → Composes
      → get_elem? responses w.next_sequence ≡ some a
      → Inv w
      → Inv (emit compose a w)
  unfolding emit
  emit-Inv w a c h v =
      rw (c w.next_sequence a h, emit)
        (record {
          alive = v.alive;
          sent =
              rw (add-one w.next_sequence)
                (ap (λ b. b ++ text a) v.sent ∙ sym (take-suc responses w.next_sequence a h));
          within = omega (arith, get_elem?-lt responses w.next_sequence a h);
          held = v.held;
        })

  remove-Inv : (w : Writer A) (k : ℕ) → Inv w → Inv (record w { backlog = remove k w.backlog })
  remove-Inv w k v = record {
    alive = v.alive;
    sent = v.sent;
    within = v.within;
    held = λ i a h. v.held i a (ground (arith, lookup-remove k i w.backlog));
  }

  -- A held response that is next.
  abbrev advance : A → Writer A → Writer A
  advance a w = emit compose a (record w { backlog = remove w.next_sequence w.backlog })

  advance-Inv :
      (w : Writer A) (a : A)
      → Composes
      → lookup w.next_sequence w.backlog ≡ some a
      → Inv w
      → Inv (advance a w)
  advance-Inv w a c e v =
      emit-Inv (record w { backlog = remove w.next_sequence w.backlog }) a c
        (v.held w.next_sequence a e) (remove-Inv w w.next_sequence v)

  drain_step :
      (fuel : ℕ) (w : Writer A) (a : A)
      → lookup w.next_sequence w.backlog ≡ some a
      → (advance a w).alive ≡ true
      → drain compose (suc fuel) w ≡ drain compose fuel (advance a w)
  unfolding drain emit
  drain_step fuel w a e h = rw (e, drain) (rw h)

  drain-Inv : (fuel : ℕ) (w : Writer A) → Composes → Inv w → Inv (drain compose fuel w)
  drain-Inv zero w c v = unfold drain in v
  drain-Inv (suc fuel) w c v = elim (Option-cases (lookup w.next_sequence w.backlog)) [
    | inl e ↦ unfold drain in rw (e, drain) v
    | inr (a, e) ↦
        let u = advance-Inv w a c e v in
        rw (drain_step fuel w a e u.alive) (drain-Inv fuel (advance a w) c u)
  ]

  insert-Inv :
      (w : Writer A) (k : ℕ) (a : A)
      → get_elem? responses k ≡ some a
      → Inv w
      → Inv (record w { backlog = insert k a w.backlog })
  insert-Inv w k a h v = record {
    alive = v.alive;
    sent = v.sent;
    within = v.within;
    held = λ i b e. ground (arith, lookup-insert k i a w.backlog, v.held i b);
  }

  -- A message of a request task: the response of a request, under the request's number.
  abbrev pub Genuine : Message A → Type 0
  Genuine (answered i a) = get_elem? responses i ≡ some a
  Genuine failed_request = ⊥

  abbrev pub AllGenuine : List (Message A) → Type 0
  AllGenuine [] = Unit
  AllGenuine (m ∷ ms) = Genuine m × AllGenuine ms

  after_next-Inv : (w : Writer A) → Composes → Inv w → Inv (after_next compose w)
  unfolding after_next
  after_next-Inv w c v = simp v.alive (drain-Inv (length w.backlog) w c v)

  pub on_message-Inv :
      (m : Message A) (w : Writer A) → Composes → Genuine m → Inv w → Inv (on_message compose m w)
  unfolding on_message
  on_message-Inv (answered i a) w c g v = elim (Bool-cases (i == w.next_sequence)) [
    | inl e ↦ rw e (
        after_next-Inv (emit compose a w) c (
          emit-Inv w a c
            (subst (λ k. get_elem? responses k ≡ some a) ((==_iff i w.next_sequence).0 e) g) v))
    | inr e ↦ rw e (insert-Inv w i a g v)
  ]
  on_message-Inv failed_request w c g v = absurd g

  pub writer-Inv :
      (ms : List (Message A)) (w : Writer A)
      → Composes
      → AllGenuine ms
      → Inv w
      → Inv (writer compose ms w)
  unfolding writer
  writer-Inv [] w c g v = v
  writer-Inv (m ∷ ms) w c (g, gs) v =
      simp v.alive (writer-Inv ms (on_message compose m w) c gs (on_message-Inv m w c g v))

  pub initial-Inv : Inv initial
  initial-Inv = record {
    alive = refl;
    sent = refl;
    within = omega arith;
    held = λ i a h. unfold lookup in cc h;
  }

  -- Whatever part of the responses has arrived, in whatever order: what is in the buffer is the texts of
  -- the first requests' responses, in the order of the requests, with none left out.
  pub writer_in_order :
      (ms : List (Message A))
      → Composes
      → AllGenuine ms
      → (n : ℕ) × (n ≤ length responses)
        × ((writer compose ms initial).write_buffer ≡ concat_map text (take n responses))
  writer_in_order ms c g =
      let v = writer-Inv ms initial c g initial-Inv in
      ((writer compose ms initial).next_sequence, v.within, v.sent)
