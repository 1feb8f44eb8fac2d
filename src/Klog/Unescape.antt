-- ===== src/Klog/Unescape.antt =====
-- Reading the escaped texts of the command log.
use momento_proxy.Base.{
  ℕ, zero, suc, ◌+◌, ◌-◌, ◌*◌, ◌≤◌, ◌<◌, ◌/◌, ◌%◌, ◌≡◌, ◌≢◌, refl, sym, ap, ◌∙◌, Option, none, some,
  [], ◌∷◌, ◌++◌, append_assoc, Bytes, length, length-append, ltb, ◌==◌, if◌then◌else◌, arith,
}
use momento_proxy.Base.Int.{ℤ, pos, negsuc}
use momento_proxy.Base.Decimal.{decimal, decimal_int}
use momento_proxy.Base.Decimal.Read.{AllDigits, decimal-AllDigits}
use momento_proxy.Klog.{hex_digit, escape_default, escaped}

infixl 5 ◌>>=◌
abbrev pub ◌>>=◌ : {A B : Type 0} → Option A → (A → Option B) → Option B
none >>= f = none
some a >>= f = f a

hex_value : ℕ → ℕ
hex_value d = if ltb d b'a' then d - b'0' else d - b'a' + 10

-- What stands behind a backslash.
read_escape : Bytes → Option (ℕ × Bytes)
unfolding hex_value
read_escape [] = none
read_escape (c ∷ s) =
    if c == b't'
    then some (9, s)
    else if c == b'r'
    then some (13, s)
    else if c == b'n'
    then some (10, s)
    else if c == b'x'
    then elim s [
      | [] ↦ none
      | h ∷ t ↦ elim t [ [] ↦ none | l ∷ r ↦ some (hex_value h * 16 + hex_value l, r) ]
    ]
    else some (c, s)

-- A byte of an escaped text, or the quote behind it.
pub data Unescaped : Type 0 where
  byte : ℕ → Bytes → Unescaped
  end : Bytes → Unescaped

unfoldable pub read_unit : Bytes → Option Unescaped
unfolding read_escape
read_unit [] = none
read_unit (c ∷ s) =
    if c == 34
    then some (end s)
    else if c == 92
    then (read_escape s >>= λ (b, r). some (byte b r))
    else some (byte c s)

hex_value-hex_digit : (d : ℕ) → d < 16 → hex_value (hex_digit d) ≡ d
unfolding hex_value hex_digit
hex_value-hex_digit d h = ground arith

read_unit-escape_default :
    (c : ℕ) (rest : Bytes) → c < 256 → read_unit (escape_default c ++ rest) ≡ some (byte c rest)
unfolding read_unit read_escape escape_default
read_unit-escape_default c rest h =
    ground (
      arith,
      hex_value-hex_digit (c / 16) (omega arith),
      hex_value-hex_digit (c % 16) (omega arith),
    )

unfoldable pub next_unit :
    Option Unescaped → (Bytes → Option (Bytes × Bytes)) → Option (Bytes × Bytes)
next_unit none k = none
next_unit (some (end s)) k = some ([], s)
next_unit (some (byte b s)) k = k s >>= λ (t, r). some (b ∷ t, r)

-- The text up to a quote, of `fuel` bytes at most, and what follows the quote.
unfoldable pub unescape : ℕ → Bytes → Option (Bytes × Bytes)
unescape zero s = none
unescape (suc fuel) s = next_unit (read_unit s) (unescape fuel)

unfoldable pub prepend : Bytes → Option (Bytes × Bytes) → Option (Bytes × Bytes)
prepend k o = o >>= λ (t, r). some (k ++ t, r)

-- The text `t` of a line stands for `k`.
pub record Spells (t k : Bytes) : Type 0 where
  pub fits : length k ≤ length t
  pub reads :
      (fuel : ℕ) (rest : Bytes)
      → unescape (length k + fuel) (t ++ rest) ≡ prepend k (unescape fuel rest)

prepend-nil : (o : Option (Bytes × Bytes)) → o ≡ prepend [] o
unfolding prepend
prepend-nil none = refl
prepend-nil (some (t, r)) = refl

prepend-append :
    (k m : Bytes) (o : Option (Bytes × Bytes)) → prepend k (prepend m o) ≡ prepend (k ++ m) o
unfolding prepend
prepend-append k m none = refl
prepend-append k m (some (t, r)) = ap (λ x. some (x, r)) (sym (append_assoc k m t))

Spells-nil : Spells [] []
Spells-nil = record {
  fits = omega arith;
  reads = λ fuel rest. ap (λ n. unescape n rest) (omega arith) ∙ prepend-nil (unescape fuel rest);
}

pub Spells-append : (t u k m : Bytes) → Spells t k → Spells u m → Spells (t ++ u) (k ++ m)
Spells-append t u k m v w = record {
  fits = omega (arith, length-append k m, length-append t u, v.fits, w.fits);
  reads = λ fuel rest.
      ap (λ n. unescape n ((t ++ u) ++ rest)) (omega (arith, length-append k m))
      ∙ ap (unescape (length k + (length m + fuel))) (append_assoc t u rest)
      ∙ v.reads (length m + fuel) (u ++ rest)
      ∙ ap (prepend k) (w.reads fuel rest)
      ∙ prepend-append k m (unescape fuel rest);
}

-- A text that stands for a byte.
Spells-unit :
    (t : Bytes) (c : ℕ)
    → 1 ≤ length t
    → ((rest : Bytes) → read_unit (t ++ rest) ≡ some (byte c rest))
    → Spells t (c ∷ [])
unfolding unescape next_unit prepend
Spells-unit t c l h = record {
  fits = l;
  reads = λ fuel rest.
      let e : length (c ∷ []) + fuel ≡ suc fuel = omega arith in
      ap (λ n. unescape n (t ++ rest)) e ∙ ap (λ u. next_unit u (unescape fuel)) (h rest);
}

length-escape_default : (c : ℕ) → 1 ≤ length (escape_default c)
unfolding escape_default
length-escape_default c = ground arith

-- Bytes of 8 bits.
abbrev pub AllBytes : Bytes → Type 0
AllBytes [] = Unit
AllBytes (c ∷ t) = (c < 256) × AllBytes t

pub Spells-escaped : (k : Bytes) → AllBytes k → Spells (escaped k) k
unfolding escaped
Spells-escaped [] h = Spells-nil
Spells-escaped (c ∷ k) (h, hs) =
    Spells-append (escape_default c) (escaped k) (c ∷ []) k
      (Spells-unit (escape_default c) c (length-escape_default c)
        (λ rest. read_unit-escape_default c rest h))
      (Spells-escaped k hs)

-- A text without quotes and backslashes.
abbrev pub Plain : Bytes → Type 0
Plain [] = Unit
Plain (c ∷ t) = (c ≢ 34) × (c ≢ 92) × Plain t

read_unit_plain :
    (c : ℕ) (rest : Bytes) → c ≢ 34 → c ≢ 92 → read_unit (c ∷ rest) ≡ some (byte c rest)
unfolding read_unit
read_unit_plain c rest h k = ground arith

pub Spells-Plain : (t : Bytes) → Plain t → Spells t t
Spells-Plain [] h = Spells-nil
Spells-Plain (c ∷ t) (h, k, hs) =
    Spells-append (c ∷ []) t (c ∷ []) t
      (Spells-unit (c ∷ []) c (omega arith) (λ rest. read_unit_plain c rest h k))
      (Spells-Plain t hs)

AllDigits-Plain : (t : Bytes) → AllDigits t → Plain t
AllDigits-Plain [] h = tt
AllDigits-Plain (c ∷ t) (h, hs) = ((λ e. ground arith), (λ e. ground arith), AllDigits-Plain t hs)

pub Spells-decimal : (n : ℕ) → Spells (decimal n) (decimal n)
Spells-decimal n = Spells-Plain (decimal n) (AllDigits-Plain (decimal n) (decimal-AllDigits n))

pub Spells-decimal_int : (z : ℤ) → Spells (decimal_int z) (decimal_int z)
unfolding decimal_int
Spells-decimal_int (pos n) = Spells-decimal n
Spells-decimal_int (negsuc n) =
    Spells-append (b'-' ∷ []) (decimal (suc n)) (b'-' ∷ []) (decimal (suc n))
      (Spells-Plain (b'-' ∷ []) (omega arith)) (Spells-decimal (suc n))
