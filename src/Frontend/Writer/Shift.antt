-- ===== src/Frontend/Writer/Shift.antt =====
-- The writer does the same whatever is in front of its buffer.
use momento_proxy.Base.{
  ℕ, zero, suc, ◌+◌, ◌≡◌, refl, ap, ◌∙◌, inl, inr, Bool, true, false, Option, ◌++◌, append_assoc,
  Bytes, ◌==◌, if◌then◌else◌, length, Option-cases,
}
use momento_proxy.Frontend.Backlog.{lookup, remove, insert}
use momento_proxy.Frontend.Writer.{
  Message, answered, failed_request, Writer, emit, drain, after_next, on_message,
}

module _ {A : Type 0} where
  -- The writer with `b` in front of its buffer.
  abbrev pub shift : Bytes → Writer A → Writer A
  shift b w = record w { write_buffer = b ++ w.write_buffer }

  choose :
      (v : Bool) (b : Bytes) (x' x y' y : Writer A)
      → x' ≡ shift b x
      → y' ≡ shift b y
      → (if v then x' else y') ≡ shift b (if v then x else y)
  choose true b x' x y' y h k = h
  choose false b x' x y' y h k = k

  choose_elim :
      (v : Bool) (b : Bytes) (x' x y' y : Writer A)
      → x' ≡ shift b x
      → y' ≡ shift b y
      → elim v [ true ↦ x' | false ↦ y' ] ≡ shift b (elim v [ true ↦ x | false ↦ y ])
  choose_elim true b x' x y' y h k = h
  choose_elim false b x' x y' y h k = k

module _ {A : Type 0} (compose : A → Option Bytes) where
  emit-shift :
      (b : Bytes) (a : A) (w : Writer A) → emit compose a (shift b w) ≡ shift b (emit compose a w)
  unfolding emit
  emit-shift b a w = elim (Option-cases (compose a)) [
    | inl e ↦ rw (e, emit) refl
    | inr (t, e) ↦
        rw (e, emit)
          (ap (λ u. record w { next_sequence = w.next_sequence + 1; write_buffer = u })
            (append_assoc b w.write_buffer t))
  ]

  -- What `drain` does with the writer after a response.
  abbrev go_on : ℕ → Writer A → Writer A
  go_on fuel w = elim w.alive [ true ↦ drain compose fuel w | false ↦ w ]

  go_on-shift :
      (fuel : ℕ) (b : Bytes) (w : Writer A)
      → drain compose fuel (shift b w) ≡ shift b (drain compose fuel w)
      → go_on fuel (shift b w) ≡ shift b (go_on fuel w)
  go_on-shift fuel b w ih =
      choose_elim w.alive b (drain compose fuel (shift b w)) (drain compose fuel w) (shift b w) w ih
        refl

  drain-shift :
      (fuel : ℕ) (b : Bytes) (w : Writer A)
      → drain compose fuel (shift b w) ≡ shift b (drain compose fuel w)
  unfolding drain
  drain-shift zero b w = refl
  drain-shift (suc fuel) b w = elim (Option-cases (lookup w.next_sequence w.backlog)) [
    | inl e ↦ rw (e, drain) refl
    | inr (a, e) ↦
        rw (e, drain)
          (ap (go_on fuel)
              (emit-shift b a (record w { backlog = remove w.next_sequence w.backlog }))
            ∙ go_on-shift fuel b
                (emit compose a (record w { backlog = remove w.next_sequence w.backlog }))
                (drain-shift fuel b _))
  ]

  after_next-shift :
      (b : Bytes) (w : Writer A) → after_next compose (shift b w) ≡ shift b (after_next compose w)
  unfolding after_next
  after_next-shift b w =
      choose w.alive b (drain compose (length w.backlog) (shift b w))
        (drain compose (length w.backlog) w) (shift b w) w (drain-shift (length w.backlog) b w) refl

  -- A message has the same effect whatever is in front of the buffer.
  pub on_message-shift :
      (b : Bytes) (m : Message A) (w : Writer A)
      → on_message compose m (shift b w) ≡ shift b (on_message compose m w)
  unfolding on_message
  on_message-shift b (answered i a) w =
      choose (i == w.next_sequence) b _ (after_next compose (emit compose a w)) _
        (record w { backlog = insert i a w.backlog })
        (ap (after_next compose) (emit-shift b a w) ∙ after_next-shift b (emit compose a w)) refl
  on_message-shift b failed_request w = refl

  pub on_message-failed :
      (w : Writer A) → on_message compose failed_request w ≡ record w { alive = false }
  unfolding on_message
  on_message-failed w = refl
