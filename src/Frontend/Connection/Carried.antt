-- ===== src/Frontend/Connection/Carried.antt =====
-- What the requests that have been read allow the messages and the writer to hold.
use momento_proxy.Base.{
  ℕ, zero, suc, ◌≤◌, ◌<◌, ◌≡◌, refl, ap, ◌∙◌, subst, true, Option, some, List, [], ◌∷◌, ◌++◌, Bytes,
  length, take, drop, get_elem?, concat_map, arith,
}
use momento_proxy.Frontend.Writer.{Message, answered, failed_request, Writer, on_message}
use momento_proxy.Frontend.Writer.Shift.{shift, on_message-shift}
use momento_proxy.Frontend.Writer.Order.{Composes, Inv, on_message-Inv}
use momento_proxy.Frontend.Connection.{Handles}

module _ {A : Type 0} where
  -- The writer as if nothing had been sent and nothing had failed.
  abbrev pub whole : Bytes → Writer A → Writer A
  whole sent w = record (shift sent w) { alive = true }

  pub take_in :
      (xs : List A) (n i : ℕ) (a : A)
      → i < n
      → get_elem? xs i ≡ some a
      → get_elem? (take n xs) i ≡ some a
  take_in [] n i a l h = cc
  take_in (x ∷ xs) zero i a l h = absurd (omega arith)
  take_in (x ∷ xs) (suc n) zero a l h = h
  take_in (x ∷ xs) (suc n) (suc i) a l h = take_in xs n i a (omega arith) h

  pub take_out :
      (xs : List A) (n i : ℕ) (a : A)
      → get_elem? (take n xs) i ≡ some a
      → (get_elem? xs i ≡ some a) × (i < n)
  take_out [] zero i a h = cc
  take_out [] (suc n) i a h = cc
  take_out (x ∷ xs) zero i a h = cc
  take_out (x ∷ xs) (suc n) zero a h = (h, omega arith)
  take_out (x ∷ xs) (suc n) (suc i) a h = let (e, l) = take_out xs n i a h in (e, omega (arith, l))

  pub take_longer :
      (xs : List A) (n k : ℕ)
      → k ≤ length (take n xs)
      → (take k (take n xs) ≡ take k (take (suc n) xs)) × (k ≤ length (take (suc n) xs))
  take_longer [] zero zero h = (refl, omega arith)
  take_longer [] zero (suc k) h = absurd (omega arith)
  take_longer [] (suc n) k h = (refl, h)
  take_longer (x ∷ xs) zero zero h = (refl, omega arith)
  take_longer (x ∷ xs) zero (suc k) h = absurd (omega arith)
  take_longer (x ∷ xs) (suc n) zero h = (refl, omega arith)
  take_longer (x ∷ xs) (suc n) (suc k) h =
      let (e, l) = take_longer xs n k (omega arith) in (ap (◌∷◌ x) e, omega (arith, l))

  -- The first of the first.
  pub take_of_take :
      (n k : ℕ) (xs : List A)
      → n ≤ length (take k xs)
      → (take n (take k xs) ≡ take n xs) × (n ≤ k) × (n ≤ length xs)
  take_of_take zero zero [] h = (refl, omega arith, h)
  take_of_take zero (suc k) [] h = (refl, omega arith, h)
  take_of_take (suc n) zero [] h = absurd (omega arith)
  take_of_take (suc n) (suc k) [] h = absurd (omega arith)
  take_of_take zero zero (x ∷ xs) h = (refl, omega arith, omega arith)
  take_of_take zero (suc k) (x ∷ xs) h = (refl, omega arith, omega arith)
  take_of_take (suc n) zero (x ∷ xs) h = absurd (omega arith)
  take_of_take (suc n) (suc k) (x ∷ xs) h =
      let (e, l, m) = take_of_take n k xs (omega arith) in
      (ap (◌∷◌ x) e, omega (arith, l), omega (arith, m))

  pub take-drop : (n : ℕ) (xs : List A) → take n xs ++ drop n xs ≡ xs
  take-drop zero [] = refl
  take-drop zero (x ∷ xs) = refl
  take-drop (suc n) [] = refl
  take-drop (suc n) (x ∷ xs) = ap (◌∷◌ x) (take-drop n xs)

module _ {A : Type 0} (responses : List A) where
  -- A message about a request that has been read: its response or an error.
  abbrev pub Carried : ℕ → Message A → Type 0
  Carried n (answered i a) = get_elem? (take n responses) i ≡ some a
  Carried n failed_request = Unit

  abbrev pub AllCarried : ℕ → List (Message A) → Type 0
  AllCarried n [] = Unit
  AllCarried n (m ∷ ms) = Carried n m × AllCarried n ms

  pub carried_longer : (n : ℕ) (ms : List (Message A)) → AllCarried n ms → AllCarried (suc n) ms
  carried_longer n [] h = tt
  carried_longer n (answered i a ∷ ms) (h, hs) =
      let (f, k) = take_out responses n i a h in
      (take_in responses (suc n) i a (omega (arith, k)) f, carried_longer n ms hs)
  carried_longer n (failed_request ∷ ms) (h, hs) = (tt, carried_longer n ms hs)

  pub AllCarried-append :
      (n : ℕ) (ms : List (Message A)) (m : Message A)
      → AllCarried n ms
      → Carried n m
      → AllCarried n (ms ++ m ∷ [])
  AllCarried-append n [] m h k = (k, tt)
  AllCarried-append n (l ∷ ms) m (g, h) k = (g, AllCarried-append n ms m h k)

  pub handled-Carried : (i n : ℕ) (m : Message A) → i < n → Handles responses i m → Carried n m
  handled-Carried i n (answered k a) l (e, h) = take_in responses n k a (omega arith) (rw e h)
  handled-Carried i n failed_request l h = tt

module _ {A : Type 0} (compose : A → Option Bytes) (text : A → Bytes) (responses : List A) where
  -- One request more has been read.
  pub content_longer :
      (n : ℕ) (w : Writer A)
      → Inv compose text (take n responses) w
      → Inv compose text (take (suc n) responses) w
  content_longer n w v =
      let (e, l) = take_longer responses n w.next_sequence v.within in
      record {
        alive = v.alive;
        sent = v.sent ∙ ap (concat_map text) e;
        within = l;
        held = λ i a h.
            let (f, k) = take_out responses n i a (v.held i a h) in
            take_in responses (suc n) i a (omega (arith, k)) f;
      }

  pub revive :
      (w : Writer A) (rs : List A)
      → Inv compose text rs w
      → Inv compose text rs (record w { alive = true })
  revive w rs v = record { alive = refl; sent = v.sent; within = v.within; held = v.held }

  unrevive :
      (w : Writer A) (rs : List A)
      → w.alive ≡ true
      → Inv compose text rs (record w { alive = true })
      → Inv compose text rs w
  unrevive w rs h v = record { alive = h; sent = v.sent; within = v.within; held = v.held }

  Composes-take :
      (n : ℕ) → Composes compose text responses → Composes compose text (take n responses)
  Composes-take n c i a h = c i a (take_out responses n i a h).0

  -- The writer after the response of a request.
  pub on_response-Inv :
      (sent : Bytes) (i : ℕ) (a : A) (w : Writer A) (n : ℕ)
      → Composes compose text responses
      → Carried responses n (answered i a)
      → w.alive ≡ true
      → Inv compose text (take n responses) (whole sent w)
      → Inv compose text (take n responses) (shift sent (on_message compose (answered i a) w))
  on_response-Inv sent i a w n c g h v =
      subst (Inv compose text (take n responses)) (on_message-shift compose sent (answered i a) w) (
        on_message-Inv compose text (take n responses) (answered i a) (shift sent w)
          (Composes-take n c) g (unrevive (shift sent w) (take n responses) h v))
