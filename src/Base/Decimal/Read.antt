-- ===== src/Base/Decimal/Read.antt =====
-- Reading back what `decimal` prints: the digits up to the first other byte.
use mathlib.Core.Logic.{inl, inr}
use Prim.Native.Nat.{ℕ, zero, suc, ◌≤◌, ◌+◌, ◌-◌, ◌*◌, ◌/◌, ◌%◌}
use mathlib.Core.Path.{◌≡◌, refl, ap, ◌∙◌}
use mathlib.Core.Bool.{Bool, true, false, ◌&&◌}
use mathlib.Core.List.{[], ◌∷◌, ◌++◌}
use native.Mathlib.Omega.{arith}
use momento_proxy.Base.Tests.{Bytes, Bool-cases, leb, ◌==◌, if◌then◌else◌}
use momento_proxy.Base.Decimal.{push_digits, decimal, decimal_lem}

abbrev pub is_digit : ℕ → Bool
is_digit c = leb b'0' c && leb c b'9'

-- The value of the leading digits, behind `n`, and what follows them.
unfoldable pub read_digits : ℕ → Bytes → ℕ × Bytes
read_digits n [] = (n, [])
read_digits n (c ∷ s) = if is_digit c then read_digits (n * 10 + (c - b'0')) s else (n, c ∷ s)

-- A text that no digit continues.
abbrev pub Stops : Bytes → Type 0
Stops [] = Unit
Stops (c ∷ s) = is_digit c ≡ false

read_last : (n : ℕ) (out : Bytes) → read_digits (n / 10) ((b'0' + n % 10) ∷ out) ≡ read_digits n out
unfolding read_digits
read_last n out = ground arith

read_digits-push_digits :
    (fuel n : ℕ) (out : Bytes)
    → n ≤ fuel
    → read_digits 0 (push_digits fuel n out) ≡ read_digits n out
unfolding push_digits
read_digits-push_digits zero n out h = ap (λ m. read_digits m out) (omega arith)
read_digits-push_digits (suc fuel) n out h = elim (Bool-cases (n == 0)) [
  | inl e ↦ rw (e, push_digits) (ap (λ m. read_digits m out) (ground arith))
  | inr e ↦
      rw (e, push_digits)
        (read_digits-push_digits fuel (n / 10) ((b'0' + n % 10) ∷ out) (ground arith)
          ∙ read_last n out)
]

push_digits-append :
    (fuel n : ℕ) (out rest : Bytes)
    → push_digits fuel n out ++ rest ≡ push_digits fuel n (out ++ rest)
unfolding push_digits
push_digits-append zero n out rest = refl
push_digits-append (suc fuel) n out rest = elim (Bool-cases (n == 0)) [
  | inl e ↦ rw (e, push_digits) refl
  | inr e ↦ rw (e, push_digits) (push_digits-append fuel (n / 10) ((b'0' + n % 10) ∷ out) rest)
]

read_digits_stop : (n : ℕ) (rest : Bytes) → Stops rest → read_digits n rest ≡ (n, rest)
unfolding read_digits
read_digits_stop n [] h = refl
read_digits_stop n (c ∷ s) h = rw h

-- A printed number is read back, and what follows it is left.
pub read_digits-decimal :
    (n : ℕ) (rest : Bytes) → Stops rest → read_digits 0 (decimal n ++ rest) ≡ (n, rest)
unfolding read_digits
read_digits-decimal n rest h = ground (
  arith,
  decimal_lem n,
  push_digits-append n n [] rest,
  read_digits-push_digits n n rest (omega arith),
  read_digits_stop n rest h,
)

-- What begins with a digit.
abbrev Begins : Bytes → Type 0
Begins s = (c : ℕ) × (r : Bytes) × (s ≡ c ∷ r) × (is_digit c ≡ true)

push_digits-Begins : (fuel n : ℕ) (out : Bytes) → Begins out → Begins (push_digits fuel n out)
unfolding push_digits
push_digits-Begins zero n out h = h
push_digits-Begins (suc fuel) n out h = elim (Bool-cases (n == 0)) [
  | inl e ↦ rw (e, push_digits) h
  | inr e ↦
      rw (e, push_digits)
        (push_digits-Begins fuel (n / 10) ((b'0' + n % 10) ∷ out) (_, _, refl, ground arith))
]

first_digit : (fuel n : ℕ) → (n == 0) ≡ false → n ≤ fuel → Begins (push_digits fuel n [])
unfolding push_digits
first_digit zero n e h = absurd (ground arith)
first_digit (suc fuel) n e h =
    rw (e, push_digits)
      (push_digits-Begins fuel (n / 10) ((b'0' + n % 10) ∷ []) (_, _, refl, ground arith))

-- A printed number begins with a digit.
pub decimal-begins : (n : ℕ) → (c : ℕ) × (r : Bytes) × (decimal n ≡ c ∷ r) × (is_digit c ≡ true)
decimal-begins n = elim (Bool-cases (n == 0)) [
  | inl e ↦ rw (decimal_lem n, e) (_, _, refl, refl)
  | inr e ↦ rw (decimal_lem n, e) (first_digit n n e (omega arith))
]

abbrev pub AllDigits : Bytes → Type 0
AllDigits [] = Unit
AllDigits (c ∷ s) = (is_digit c ≡ true) × AllDigits s

push_digits-AllDigits :
    (fuel n : ℕ) (out : Bytes) → AllDigits out → AllDigits (push_digits fuel n out)
unfolding push_digits
push_digits-AllDigits zero n out h = h
push_digits-AllDigits (suc fuel) n out h = elim (Bool-cases (n == 0)) [
  | inl e ↦ rw (e, push_digits) h
  | inr e ↦
      rw (e, push_digits)
        (push_digits-AllDigits fuel (n / 10) ((b'0' + n % 10) ∷ out) (ground arith, h))
]

-- A printed number is of digits.
pub decimal-AllDigits : (n : ℕ) → AllDigits (decimal n)
decimal-AllDigits n = elim (Bool-cases (n == 0)) [
  | inl e ↦ rw (decimal_lem n, e) (refl, tt)
  | inr e ↦ rw (decimal_lem n, e) (push_digits-AllDigits n n [] tt)
]
