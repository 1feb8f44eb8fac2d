-- ===== src/Base/Decimal.antt =====
-- `format!("{}", n)` for unsigned and signed integers.
pub mod Read
use Prim.Native.Nat.{ℕ, zero, suc, ◌+◌, ◌-◌, ◌/◌, ◌%◌, ◌<◌}
use mathlib.Core.Path.{◌≡◌, refl}
use mathlib.Core.List.{List, [], ◌∷◌}
use native.Mathlib.Omega.{arith}
use momento_proxy.Base.Tests.{Bytes, codes, ◌==◌, Bool-cases, if◌then◌else◌}
use mathlib.Core.Bool.{true, false}
use mathlib.Core.Logic.{inl, inr}
use momento_proxy.Base.Int.{ℤ, pos, negsuc}

-- The digits of `n` in front of `out`, for a number that `fuel` bounds.
push_digits : ℕ → ℕ → Bytes → Bytes
push_digits zero n out = out
push_digits (suc fuel) n out = elim (n == 0) [
  | true ↦ out
  | false ↦ push_digits fuel (n / 10) ((b'0' + n % 10) ∷ out)
]

unfoldable pub decimal : ℕ → Bytes
unfolding push_digits
decimal n = if n == 0 then b'0' ∷ [] else push_digits n n []

-- The equation of `decimal` that leaves `push_digits` shut.
decimal_lem : (n : ℕ) → decimal n ≡ (if n == 0 then b'0' ∷ [] else push_digits n n [])
unfolding decimal
decimal_lem n = refl

unfoldable pub decimal_int : ℤ → Bytes
decimal_int (pos n) = decimal n
decimal_int (negsuc n) = b'-' ∷ decimal (suc n)

decimal_test : decimal 1060 ≡ codes "1060"
unfolding decimal
decimal_test = refl

decimal_int_test : decimal_int (negsuc 41) ≡ codes "-42"
unfolding decimal_int decimal
decimal_int_test = refl
