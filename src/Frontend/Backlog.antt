-- ===== src/Frontend/Backlog.antt =====
-- A `BTreeMap` whose keys are sequence numbers, as the list of its entries.
use momento_proxy.Base.{
  ℕ, ◌≤◌, ◌<◌, ◌≡◌, refl, Option, none, some, List, [], ◌∷◌, ◌==◌, if◌then◌else◌, length, arith,
}

module _ {A : Type 0} where
  unfoldable pub lookup : ℕ → List (ℕ × A) → Option A
  lookup k [] = none
  lookup k ((j, a) ∷ l) = if j == k then some a else lookup k l

  unfoldable pub remove : ℕ → List (ℕ × A) → List (ℕ × A)
  remove k [] = []
  remove k ((j, a) ∷ l) = let rest = remove k l in if j == k then rest else (j, a) ∷ rest

  unfoldable pub insert : ℕ → A → List (ℕ × A) → List (ℕ × A)
  unfolding remove
  insert k a l = (k, a) ∷ remove k l

  pub lookup-remove :
      (k j : ℕ) (l : List (ℕ × A)) → lookup j (remove k l) ≡ (if k == j then none else lookup j l)
  unfolding lookup remove
  lookup-remove k j [] = ground arith
  lookup-remove k j ((i, a) ∷ l) = ground (arith, lookup-remove k j l)

  pub lookup-insert :
      (k j : ℕ) (a : A) (l : List (ℕ × A))
      → lookup j (insert k a l) ≡ (if k == j then some a else lookup j l)
  unfolding lookup insert
  lookup-insert k j a l = ground (arith, lookup-remove k j l)

  length-remove-le : (k : ℕ) (l : List (ℕ × A)) → length (remove k l) ≤ length l
  unfolding remove
  length-remove-le k [] = omega arith
  length-remove-le k ((i, a) ∷ l) = ground (arith, length-remove-le k l)

  pub length-remove-lt :
      (k : ℕ) (a : A) (l : List (ℕ × A)) → lookup k l ≡ some a → length (remove k l) < length l
  unfolding lookup remove
  length-remove-lt k a [] h = cc
  length-remove-lt k a ((i, b) ∷ l) h = ground (arith, length-remove-lt k a l, length-remove-le k l)

  pub lookup_nil : (k : ℕ) (l : List (ℕ × A)) → length l ≤ 0 → lookup k l ≡ none
  unfolding lookup
  lookup_nil k [] h = refl
  lookup_nil k (e ∷ l) h = absurd (omega arith)
