-- ===== src/Frontend/Writer/Advance.antt =====
-- The writer only goes forward in the sequence.
use momento_proxy.Base.{
  ℕ, zero, suc, ◌≤◌, inl, inr, Bool, true, false, Option, Bytes, ◌==◌, if◌then◌else◌, length,
  Option-cases, arith,
}
use momento_proxy.Frontend.Backlog.{lookup, remove, insert}
use momento_proxy.Frontend.Writer.{
  Message, answered, failed_request, Writer, emit, drain, after_next, on_message,
}

module _ {A : Type 0} (n : ℕ) where
  -- A bound that both branches keep.
  if_le :
      (b : Bool) (x y : Writer A)
      → n ≤ x.next_sequence
      → n ≤ y.next_sequence
      → n ≤ (if b then x else y).next_sequence
  if_le true x y h k = h
  if_le false x y h k = k

  elim_le :
      (b : Bool) (x y : Writer A)
      → n ≤ x.next_sequence
      → n ≤ y.next_sequence
      → n ≤ (elim b as (λ _. Writer A) [ true ↦ x | false ↦ y ]).next_sequence
  elim_le true x y h k = h
  elim_le false x y h k = k

module _ {A : Type 0} (compose : A → Option Bytes) where
  emit_le : (a : A) (w : Writer A) → w.next_sequence ≤ (emit compose a w).next_sequence
  unfolding emit
  emit_le a w = elim (Option-cases (compose a)) [
    | inl e ↦ rw (e, emit) (omega arith)
    | inr (t, e) ↦ rw (e, emit) (omega arith)
  ]

  drain_le : (fuel : ℕ) (w : Writer A) → w.next_sequence ≤ (drain compose fuel w).next_sequence
  unfolding drain
  drain_le zero w = omega arith
  drain_le (suc fuel) w = elim (Option-cases (lookup w.next_sequence w.backlog)) [
    | inl e ↦ rw (e, drain) (omega arith)
    | inr (a, e) ↦
        let w' = emit compose a (record w { backlog = remove w.next_sequence w.backlog }) in
        let l : w.next_sequence ≤ w'.next_sequence =
          emit_le a (record w { backlog = remove w.next_sequence w.backlog }) in
        rw (e, drain)
          (elim_le w.next_sequence w'.alive (drain compose fuel w') w'
            (omega (arith, l, drain_le fuel w')) l)
  ]

  -- No message takes the writer back.
  pub on_message_le :
      (m : Message A) (w : Writer A) → w.next_sequence ≤ (on_message compose m w).next_sequence
  unfolding on_message after_next
  on_message_le (answered i a) w =
      let w' = emit compose a w in
      let l = emit_le a w in
      if_le w.next_sequence (i == w.next_sequence) (after_next compose w')
        (record w { backlog = insert i a w.backlog })
        (if_le w.next_sequence w'.alive (drain compose (length w'.backlog) w') w'
          (omega (arith, l, drain_le (length w'.backlog) w')) l)
        (omega arith)
  on_message_le failed_request w = omega arith
