-- ===== src/Base/Text.antt =====
-- `std::str::from_utf8` and `str::parse::<i32>`, as tests and readers of bytes.
use Prim.Native.Nat.{ℕ, zero, suc, ◌+◌, ◌-◌, ◌*◌, ◌^◌}
use mathlib.Core.Path.{◌≡◌, refl}
use mathlib.Core.Bool.{Bool, true, false, ◌&&◌, ◌||◌}
use mathlib.Core.Option.{Option, none, some}
use mathlib.Core.List.{List, [], ◌∷◌}
use momento_proxy.Base.Tests.{Bytes, codes, leb, ltb, ◌==◌, if◌then◌else◌}
use momento_proxy.Base.Int.{ℤ, pos, negsuc}

-- The ranges that the next bytes of a character must lie in.
abbrev Pending : Type 0
Pending = List (ℕ × ℕ)

tail : ℕ × ℕ
tail = (0x80, 0xbf)

-- The first byte of a character (table 3-7 of the Unicode standard).
lead : ℕ → Option Pending
unfolding tail
lead c =
    if ltb c 0x80
    then some []
    else if leb 0xc2 c && leb c 0xdf
    then some (tail ∷ [])
    else if c == 0xe0
    then some ((0xa0, 0xbf) ∷ tail ∷ [])
    else if (leb 0xe1 c && leb c 0xec) || (leb 0xee c && leb c 0xef)
    then some (tail ∷ tail ∷ [])
    else if c == 0xed
    then some ((0x80, 0x9f) ∷ tail ∷ [])
    else if c == 0xf0
    then some ((0x90, 0xbf) ∷ tail ∷ tail ∷ [])
    else if leb 0xf1 c && leb c 0xf3
    then some (tail ∷ tail ∷ tail ∷ [])
    else if c == 0xf4
    then some ((0x80, 0x8f) ∷ tail ∷ tail ∷ [])
    else none

next : Pending → ℕ → Option Pending
unfolding lead
next [] c = lead c
next ((lo, hi) ∷ p) c = if leb lo c && leb c hi then some p else none

scan_utf8 : Pending → Bytes → Bool
unfolding next
scan_utf8 [] [] = true
scan_utf8 (r ∷ p) [] = false
scan_utf8 p (c ∷ s) = elim (next p c) [ none ↦ false | some q ↦ scan_utf8 q s ]

-- `std::str::from_utf8(bytes).is_ok()`
unfoldable pub is_utf8 : Bytes → Bool
unfolding scan_utf8
is_utf8 = scan_utf8 []

read_number : ℕ → Bytes → Option ℕ
read_number n [] = some n
read_number n (c ∷ s) =
    if leb b'0' c && leb c b'9' then read_number (n * 10 + (c - b'0')) s else none

unsigned : Bytes → Option ℕ
unfolding read_number
unsigned [] = none
unsigned (c ∷ s) = read_number 0 (c ∷ s)

as_positive : ℕ → Option ℤ
as_positive n = if ltb n (2 ^ 31) then some (pos n) else none

as_negative : ℕ → Option ℤ
as_negative zero = some (pos 0)
as_negative (suc n) = if ltb n (2 ^ 31) then some (negsuc n) else none

bind : (ℕ → Option ℤ) → Option ℕ → Option ℤ
bind f none = none
bind f (some n) = f n

-- `text.parse::<i32>().ok()`
unfoldable pub parse_i32 : Bytes → Option ℤ
unfolding unsigned as_positive as_negative bind
parse_i32 [] = none
parse_i32 (c ∷ s) =
    if c == b'-'
    then bind as_negative (unsigned s)
    else if c == b'+'
    then bind as_positive (unsigned s)
    else bind as_positive (unsigned (c ∷ s))

utf8_test : (is_utf8 (0x61 ∷ 0xe2 ∷ 0x82 ∷ 0xac ∷ []) ≡ true) × (is_utf8 (0xc0 ∷ 0x80 ∷ []) ≡ false)
unfolding is_utf8
utf8_test = (refl, refl)

parse_i32_test :
    (parse_i32 (codes "-2147483648") ≡ some (negsuc 2147483647))
    × (parse_i32 (codes "2147483648") ≡ none)
    × (parse_i32 (codes "-") ≡ none)
unfolding parse_i32
parse_i32_test = (refl, refl, refl)
