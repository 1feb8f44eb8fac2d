-- ===== src/Metrics/Listing/Sorted.antt =====
-- What `--stats` prints.
use mathlib.Core.List.{Perm}
use mathlib.Core.List.Perm
use momento_proxy.Base.{
  ◌≡◌, ◌<◌, ◌⊎◌, refl, inl, inr, true, false, List, [], ◌∷◌, ◌++◌, Bytes, codes, ltb, concat_map,
  Bool-cases, arith,
}
use momento_proxy.Metrics.Listing.{Metric, metric_lines, pad, le_bytes, insert, sort, listing}

-- The lexicographic order.
abbrev pub LexLe : Bytes → Bytes → Type 0
LexLe [] t = Unit
LexLe (a ∷ s) [] = ⊥
LexLe (a ∷ s) (b ∷ t) = (a < b) ⊎ ((a ≡ b) × LexLe s t)

-- No line comes before a smaller one.
abbrev pub Ascends : List Bytes → Type 0
Ascends [] = Unit
Ascends (x ∷ []) = Unit
Ascends (x ∷ y ∷ ys) = LexLe x y × Ascends (y ∷ ys)

le_bytes-LexLe : (s t : Bytes) → le_bytes s t ≡ true → LexLe s t
unfolding le_bytes
le_bytes-LexLe [] t h = tt
le_bytes-LexLe (a ∷ s) [] h = cc
le_bytes-LexLe (a ∷ s) (b ∷ t) h = elim (Bool-cases (ltb a b)) [
  | inl e ↦ inl (ground arith)
  | inr e ↦ inr (ground arith, le_bytes-LexLe s t (ground arith))
]

le_bytes_total : (s t : Bytes) → le_bytes s t ≡ false → le_bytes t s ≡ true
unfolding le_bytes
le_bytes_total [] t h = cc
le_bytes_total (a ∷ s) [] h = refl
le_bytes_total (a ∷ s) (b ∷ t) h = ground (arith, le_bytes_total s t)

-- What is put behind a smaller line.
insert_behind :
    (x y : Bytes) (ys : List Bytes) → LexLe y x → Ascends (y ∷ ys) → Ascends (y ∷ insert x ys)
unfolding insert
insert_behind x y [] h a = (h, tt)
insert_behind x y (z ∷ zs) h (b, a) = elim (Bool-cases (le_bytes x z)) [
  | inl e ↦ rw (e, insert) (h, (le_bytes-LexLe x z e, a))
  | inr e ↦ rw (e, insert) (b, insert_behind x z zs (le_bytes-LexLe z x (le_bytes_total x z e)) a)
]

insert-Ascends : (x : Bytes) (ys : List Bytes) → Ascends ys → Ascends (insert x ys)
unfolding insert
insert-Ascends x [] a = tt
insert-Ascends x (y ∷ ys) a = elim (Bool-cases (le_bytes x y)) [
  | inl e ↦ rw (e, insert) (le_bytes-LexLe x y e, a)
  | inr e ↦ rw (e, insert) (insert_behind x y ys (le_bytes-LexLe y x (le_bytes_total x y e)) a)
]

sort-Ascends : (xs : List Bytes) → Ascends (sort xs)
unfolding sort
sort-Ascends [] = tt
sort-Ascends (x ∷ xs) = insert-Ascends x (sort xs) (sort-Ascends xs)

insert-perm : (x : Bytes) (ys : List Bytes) → Perm (insert x ys) (x ∷ ys)
unfolding insert
insert-perm x [] = Perm.refl (x ∷ [])
insert-perm x (y ∷ ys) = elim (Bool-cases (le_bytes x y)) [
  | inl e ↦ rw (e, insert) (Perm.refl (x ∷ y ∷ ys))
  | inr e ↦ rw (e, insert) (Perm.trans (Perm.cons y (insert-perm x ys)) (Perm.swap x y ys))
]

sort-perm : (xs : List Bytes) → Perm (sort xs) xs
unfolding sort
sort-perm [] = Perm.refl []
sort-perm (x ∷ xs) = Perm.trans (insert-perm x (sort xs)) (Perm.cons x (sort-perm xs))

-- The list of the metrics is a heading and then, in ascending order, the lines of all metrics, each as often
-- as there are.
pub listing-Ascends :
    (metrics : List Metric)
    → (lines : List Bytes) × (listing metrics
        ≡ (pad 31 (codes "NAME") ++ codes " " ++ pad 15 (codes "TYPE") ++ codes " DESCRIPTION")
          ∷ lines)
      × Ascends lines
      × Perm lines (concat_map metric_lines metrics)
unfolding listing
listing-Ascends metrics = (
  sort (concat_map metric_lines metrics),
  refl,
  sort-Ascends (concat_map metric_lines metrics),
  sort-perm (concat_map metric_lines metrics),
)
