-- ===== src/Frontend/Writer.antt =====
-- The writer task of `handle_memcache_client_concrete` in src/frontend.rs: the responses of the request
-- tasks arrive in any order and are composed in the order of the requests.
pub mod Order
pub mod Shift
pub mod Advance
use momento_proxy.Base.{
  ℕ, zero, suc, ◌+◌, ◌≡◌, refl, Bool, true, false, Option, none, some, List, [], ◌∷◌, ◌++◌, Bytes,
  ◌==◌, if◌then◌else◌, length,
}
use momento_proxy.Frontend.Backlog.{lookup, remove, insert}

-- What a request task sends: a sequence number with the request and its response (an `A`), or an error.
pub data Message (A : Type 0) : Type 0 where
  answered : ℕ → A → Message A
  failed_request : Message A

-- `alive` is false once the task has stored `false` to both flags and returned. The counter is taken to
-- stay below 2^64.
pub record Writer (A : Type 0) : Type 0 where
  pub next_sequence : ℕ
  pub backlog : List (ℕ × A)
  pub write_buffer : Bytes
  pub alive : Bool

abbrev pub initial : {A : Type 0} → Writer A
initial = record { next_sequence = 0; backlog = []; write_buffer = []; alive = true }

-- `compose` is the protocol library's `compose_response`; `none` is an error.
module _ {A : Type 0} (compose : A → Option Bytes) where
  -- `next_sequence += 1`, and the response behind those in the buffer.
  unfoldable pub emit : A → Writer A → Writer A
  emit a w = elim (compose a) [
    | none ↦ record w { next_sequence = w.next_sequence + 1; alive = false }
    | some b ↦ record w { next_sequence = w.next_sequence + 1; write_buffer = w.write_buffer ++ b }
  ]

  -- `'backlog: while !backlog.is_empty() { .. }`, with fuel for each entry.
  unfoldable pub drain : ℕ → Writer A → Writer A
  drain zero w = w
  drain (suc fuel) w = elim (lookup w.next_sequence w.backlog) [
    | none ↦ w
    | some a ↦
        let w' = emit a (record w { backlog = remove w.next_sequence w.backlog }) in
        elim w'.alive [ true ↦ drain fuel w' | false ↦ w' ]
  ]

  unfoldable pub after_next : Writer A → Writer A
  after_next w = if w.alive then drain (length w.backlog) w else w

  -- `match result { .. }`
  unfoldable pub on_message : Message A → Writer A → Writer A
  on_message (answered sequence a) w =
      if sequence == w.next_sequence
      then after_next (emit a w)
      else record w { backlog = insert sequence a w.backlog }
  on_message failed_request w = record w { alive = false }

  -- The task, over what its channel receives.
  pub writer : List (Message A) → Writer A → Writer A
  writer [] w = w
  writer (m ∷ ms) w = let rest = writer ms (on_message m w) in if w.alive then rest else w
