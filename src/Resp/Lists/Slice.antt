-- ===== src/Resp/Lists/Slice.antt =====
-- What the indices of LRANGE and LINDEX select.
use momento_proxy.Base.{
  ℕ, zero, suc, ◌+◌, ◌-◌, ◌^◌, ◌%◌, ◌≤◌, ◌<◌, ◌≡◌, refl, sym, ap, ◌∙◌, ◌⊎◌, inl, inr, Bool, true,
  false, ◌||◌, ◌&&◌, Option, none, some, List, [], ◌∷◌, Bytes, length, get_elem?, take, drop, ltb,
  leb, if◌then◌else◌, Bool-cases, arith,
}
use momento_proxy.Base.Int.{ℤ, pos, negsuc}
use momento_proxy.Resp.Lists.{list_index, element_at, list_slice, range_start, range_end, slice_to}

-- Index `start` names an element at or before the `i`-th of `len`, counted from the end if it is
-- negative.
abbrev pub starts : ℕ → ℤ → ℕ → Bool
starts len (pos n) i = leb n i
starts len (negsuc n) i = leb len (i + (n + 1))

-- Index `stop` names an element at or behind the `i`-th of `len`.
abbrev pub stops : ℕ → ℤ → ℕ → Bool
stops len (pos n) i = leb i n
stops len (negsuc n) i = leb (i + (n + 1)) len

-- The elements whose positions pass a test; the first one is at position `k`.
abbrev pub pick : (ℕ → Bool) → ℕ → List Bytes → List Bytes
pick p k [] = []
pick p k (x ∷ xs) = if p k then x ∷ pick p (suc k) xs else pick p (suc k) xs

abbrev between : ℕ → ℕ → ℕ → Bool
between a b i = leb a i && leb i b

pick_ext :
    (p q : ℕ → Bool) (k : ℕ) (xs : List Bytes)
    → ((i : ℕ) → i < k + length xs → p i ≡ q i)
    → pick p k xs ≡ pick q k xs
pick_ext p q k [] h = refl
pick_ext p q k (x ∷ xs) h =
    rw (h k (omega arith), pick_ext p q (suc k) xs (λ i l. h i (omega (arith, l)))) refl

pick_none :
    (p : ℕ → Bool) (k : ℕ) (xs : List Bytes)
    → ((i : ℕ) → i < k + length xs → p i ≡ false)
    → pick p k xs ≡ []
pick_none p k [] h = refl
pick_none p k (x ∷ xs) h =
    rw (h k (omega arith)) (pick_none p (suc k) xs λ i l. h i (omega (arith, l)))

between_in : (a b k : ℕ) → a ≤ k → k ≤ b → between a b k ≡ true
between_in a b k h l = ground arith

between_out : (a b k : ℕ) → (k < a) ⊎ (b < k) → between a b k ≡ false
between_out a b k h = ground arith

take_zero : (xs : List Bytes) → take 0 xs ≡ []
take_zero [] = refl
take_zero (x ∷ xs) = refl

take_nil : (n : ℕ) → take {A = Bytes} n [] ≡ []
take_nil zero = refl
take_nil (suc n) = refl

pick_to :
    (xs : List Bytes) (a b k n : ℕ) → a ≤ k → n ≡ b + 1 - k → pick (between a b) k xs ≡ take n xs
pick_to [] a b k n h l = sym (take_nil n)
pick_to (x ∷ xs) a b k zero h l =
    rw (between_out a b k (inr (omega arith)))
      (pick_to xs a b (suc k) zero (omega arith) (omega arith) ∙ take_zero xs)
pick_to (x ∷ xs) a b k (suc n) h l =
    rw (between_in a b k h (omega arith))
      (ap (◌∷◌ x) (pick_to xs a b (suc k) n (omega arith) (omega arith)))

pick_from :
    (xs : List Bytes) (a b k m : ℕ)
    → a ≡ k + m
    → pick (between a b) k xs ≡ take (b + 1 - a) (drop m xs)
pick_from xs a b k zero h = pick_to xs a b k (b + 1 - a) (omega arith) (omega arith)
pick_from [] a b k (suc m) h = sym (take_nil (b + 1 - a))
pick_from (x ∷ xs) a b k (suc m) h =
    rw (between_out a b k (inl (omega arith))) (pick_from xs a b (suc k) m (omega arith))

-- The early return and the empty reply are the same to a client.
abbrev pub or_empty : Option (List Bytes) → List Bytes
or_empty none = []
or_empty (some xs) = xs

between_last :
    (a b len i : ℕ) → i < len → between a (if ltb b (len - 1) then b else len - 1) i ≡ between a b i
between_last a b len i h = ground arith

slice_to_lem : (xs : List Bytes) (a b : ℕ) → or_empty (slice_to xs a b) ≡ pick (between a b) 0 xs
unfolding slice_to
slice_to_lem xs a b = elim (Bool-cases (leb (length xs) a || ltb b a)) [
  | inl e ↦ rw (e, slice_to) (sym (pick_none (between a b) 0 xs λ i l. ground arith))
  | inr e ↦
      let last = if ltb b (length xs - 1) then b else length xs - 1 in
      rw (e, slice_to)
        (sym (pick_from xs a last 0 a (omega arith))
          ∙ pick_ext (between a last) (between a b) 0 xs
              (λ i l. between_last a b (length xs) i (omega (arith, l))))
]

-- The positions that LRANGE means.
abbrev pub selected : ℕ → ℤ → ℤ → ℕ → Bool
selected len start stop i = starts len start i && stops len stop i

starts_lem : (len i : ℕ) (start : ℤ) → i < len → leb (range_start len start) i ≡ starts len start i
unfolding range_start
starts_lem len i (pos n) h = refl
starts_lem len i (negsuc n) h = ground arith

and_false : (a b : Bool) → b ≡ false → (a && b) ≡ false
and_false a b h = ground arith

slice_end :
    (xs : List Bytes) (start stop : ℤ) (o : Option ℕ)
    → ((i : ℕ)
        → i < length xs
        → elim o [ none ↦ false | some b ↦ leb i b ] ≡ stops (length xs) stop i)
    → or_empty (elim o [ none ↦ none | some b ↦ slice_to xs (range_start (length xs) start) b ])
      ≡ pick (selected (length xs) start stop) 0 xs
slice_end xs start stop none h =
    sym (pick_none _ 0 xs λ i l. and_false _ _ (sym (h i (omega (arith, l)))))
slice_end xs start stop (some b) h =
    slice_to_lem xs (range_start (length xs) start) b
    ∙ pick_ext _ _ 0 xs
        (λ i l. rw (starts_lem (length xs) i start (omega (arith, l)), h i (omega (arith, l))) refl)

stops_lem :
    (len i : ℕ) (stop : ℤ)
    → i < len
    → elim (range_end len stop) [ none ↦ false | some b ↦ leb i b ] ≡ stops len stop i
unfolding range_end
stops_lem len i (pos n) h = refl
stops_lem len i (negsuc n) h = ground arith

-- LRANGE selects the elements between its two indices, both included, in their order, where a negative
-- index counts from the end of the list: whatever the indices and the list are.
pub list_slice_lem :
    (xs : List Bytes) (start stop : ℤ)
    → or_empty (list_slice xs start stop) ≡ pick (selected (length xs) start stop) 0 xs
unfolding list_slice
list_slice_lem xs start stop =
    slice_end xs start stop (range_end (length xs) stop) λ i l. stops_lem (length xs) i stop l

abbrev pub first : List Bytes → Option Bytes
first [] = none
first (x ∷ xs) = some x

first-drop : (xs : List Bytes) (a : ℕ) → first (take 1 (drop a xs)) ≡ get_elem? xs a
first-drop [] zero = refl
first-drop [] (suc a) = refl
first-drop (x ∷ xs) zero = refl
first-drop (x ∷ xs) (suc a) = first-drop xs a

first_at : (xs : List Bytes) (a n : ℕ) → n ≡ 1 → first (take n (drop a xs)) ≡ get_elem? xs a
first_at xs a n h = rw h (first-drop xs a)

get_elem?-ge : (xs : List Bytes) (a : ℕ) → length xs ≤ a → get_elem? xs a ≡ none
get_elem?-ge [] a h = refl
get_elem?-ge (x ∷ xs) zero h = absurd (omega arith)
get_elem?-ge (x ∷ xs) (suc a) h = get_elem?-ge xs a (omega arith)

first_selected :
    (xs : List Bytes) (p : ℕ → Bool) (a : ℕ)
    → ((i : ℕ) → i < length xs → p i ≡ between a a i)
    → first (pick p 0 xs) ≡ get_elem? xs a
first_selected xs p a h =
    ap first (
      pick_ext p (between a a) 0 xs (λ i l. h i (omega (arith, l)))
      ∙ pick_from xs a a 0 a (omega arith))
    ∙ first_at xs a (a + 1 - a) (omega arith)

abbrev pub Is64 : ℤ → Type 0
Is64 (pos n) = n < 2 ^ 63
Is64 (negsuc n) = n < 2 ^ 63

from_end :
    (xs : List Bytes) (n i : ℕ)
    → n < length xs
    → selected (length xs) (negsuc n) (negsuc n) i
      ≡ between (length xs - (n + 1)) (length xs - (n + 1)) i
from_end xs n i h = ground arith

before_start :
    (xs : List Bytes) (n : ℕ)
    → length xs ≤ n
    → first (pick (selected (length xs) (negsuc n) (negsuc n)) 0 xs) ≡ none
before_start xs n h = ap first (pick_none _ 0 xs λ i l. ground arith)

wrapped : (len n : ℕ) → len < 2 ^ 63 → n < len → (len + 2 ^ 64 - (n + 1)) % 2 ^ 64 ≡ len - (n + 1)
wrapped len n h l = omega arith

wrapped_ge :
    (len n : ℕ) → len < 2 ^ 63 → n < 2 ^ 63 → len ≤ n → len ≤ (len + 2 ^ 64 - (n + 1)) % 2 ^ 64
wrapped_ge len n h l g = omega arith

indexed_from_end :
    (xs : List Bytes) (n : ℕ)
    → length xs < 2 ^ 63
    → n < 2 ^ 63
    → (n < length xs) ⊎ (length xs ≤ n)
    → get_elem? xs ((length xs + 2 ^ 64 - (n + 1)) % 2 ^ 64)
      ≡ first (pick (selected (length xs) (negsuc n) (negsuc n)) 0 xs)
indexed_from_end xs n h l (inl g) =
    rw (wrapped (length xs) n h g)
      (sym (first_selected xs _ (length xs - (n + 1)) λ i j. from_end xs n i g))
indexed_from_end xs n h l (inr g) =
    get_elem?-ge xs _ (wrapped_ge (length xs) n h l g) ∙ sym (before_start xs n g)

-- LINDEX finds the element that LRANGE selects from the index to the same index, or nothing where
-- there is none; for a list of fewer than 2^63 elements and any index of 64 bits, although the position
-- is computed with wrap-around.
pub list_index_lem :
    (xs : List Bytes) (index : ℤ)
    → length xs < 2 ^ 63
    → Is64 index
    → element_at xs (list_index (length xs) index)
      ≡ first (pick (selected (length xs) index index) 0 xs)
unfolding list_index element_at
list_index_lem xs (pos n) h l = sym (first_selected xs _ n λ i j. refl)
list_index_lem xs (negsuc n) h l = elim (Bool-cases (leb (2 ^ 63 - 1) n)) [
  | inl e ↦ rw (e, list_index, element_at) (sym (before_start xs n (ground arith)))
  | inr e ↦ rw (e, list_index, element_at) (indexed_from_end xs n h l (ground arith))
]
