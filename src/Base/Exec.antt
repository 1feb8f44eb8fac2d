-- ===== src/Base/Exec.antt =====
-- Rust functions that mutate what they borrow and return a `Result`: what was written before an
-- early `return Err(..)` stays written, so the state comes back beside the error too. A panic ends
-- the process: the panic hook of src/main.rs exits.
use mathlib.Core.List.{List, [], ◌∷◌}

pub data Result {ℓ κ} (E : Type ℓ) (A : Type κ) : Type (ℓ ⊔ κ) where
  ok : A → Result E A
  err : E → Result E A
  panicked : Result E A

abbrev pub Exec : Type 0 → Type 0 → Type 0 → Type 0
Exec E S A = S → Result E A × S

module _ {E S A : Type 0} where
  abbrev pub pure : A → Exec E S A
  pure a s = (ok a, s)

  abbrev pub raise : E → Exec E S A
  raise e s = (err e, s)

  abbrev pub panic : Exec E S A
  panic s = (panicked, s)

  -- A `Result` computed without effects, under `?`.
  abbrev pub lift : Result E A → Exec E S A
  lift r s = (r, s)

module _ {E S A B : Type 0} where
  abbrev pub continue : Result E A → (A → Exec E S B) → Exec E S B
  continue (ok a) f s = f a s
  continue (err e) f s = (err e, s)
  continue panicked f s = (panicked, s)

  infixl 10 ◌>>=◌ ◌>>◌
  abbrev pub ◌>>=◌ : Exec E S A → (A → Exec E S B) → Exec E S B
  ◌>>=◌ m f s = let (r, s') = m s in continue r f s'

  abbrev pub ◌>>◌ : Exec E S A → Exec E S B → Exec E S B
  m >> k = m >>= λ _. k

module _ {E S A : Type 0} where
  -- `for x in xs { body }`, where `body` may return an error.
  abbrev pub for_each : List A → (A → Exec E S (Unit {0})) → Exec E S (Unit {0})
  for_each [] body s = (ok tt, s)
  for_each (x ∷ xs) body s = (body x >>= λ _. for_each xs body) s
