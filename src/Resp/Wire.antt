-- ===== src/Resp/Wire.antt =====
-- What a RESP client reads: the replies, their encoding and a decoder. This is the description that
-- the responses of src/protocol/resp are held against; nothing here is code of the proxy.
pub mod RoundTrip
use momento_proxy.Base.{
  ℕ, zero, suc, ◌+◌, ◌-◌, ◌≡◌, refl, Bool, true, false, ◌&&◌, Option, none, some, List, [], ◌∷◌,
  ◌++◌, Bytes, codes, ltb, ◌==◌, if◌then◌else◌, length, take, drop, concat_map,
}
use momento_proxy.Base.Int.{ℤ, pos, negsuc}
use momento_proxy.Base.Decimal.{decimal, decimal_int}
use momento_proxy.Base.Decimal.Read.{read_digits}

-- The parts of an array, which are replies by themselves too.
pub data Item : Type 0 where
  bulk : Bytes → Item
  nil_bulk : Item
  integer : ℤ → Item
  null : Item

pub data Reply : Type 0 where
  simple : Bytes → Reply
  error : Bytes → Reply
  item : Item → Reply
  array : List Item → Reply
  nil_array : Reply

abbrev pub crlf : Bytes
crlf = 13 ∷ 10 ∷ []

unfoldable pub encode_item : Item → Bytes
encode_item (bulk b) = b'$' ∷ decimal (length b) ++ (crlf ++ (b ++ crlf))
encode_item nil_bulk = codes "$-1" ++ crlf
encode_item (integer z) = b':' ∷ decimal_int z ++ crlf
encode_item null = b'_' ∷ crlf

unfoldable pub encode : Reply → Bytes
unfolding encode_item
encode (simple t) = b'+' ∷ t ++ crlf
encode (error t) = b'-' ∷ t ++ crlf
encode (item i) = encode_item i
encode (array is) = b'*' ∷ decimal (length is) ++ (crlf ++ concat_map encode_item is)
encode nil_array = codes "*-1" ++ crlf

infixl 5 ◌>>=◌
abbrev ◌>>=◌ : {A B : Type 0} → Option A → (A → Option B) → Option B
none >>= f = none
some a >>= f = f a

read_crlf : Bytes → Option Bytes
read_crlf (a ∷ b ∷ s) = if (a == 13) && (b == 10) then some s else none
read_crlf _ = none

read_line : Bytes → Option (Bytes × Bytes)
read_line [] = none
read_line (c ∷ s) = elim (c == 13) [
  | true ↦ (do r ← read_crlf (c ∷ s); some ([], r))
  | false ↦ (do t ← read_line s; some (c ∷ t.0, t.1))
]

-- `some n` is a number, `none` the text `-1` that stands for nil.
read_length : Bytes → Option (Option ℕ × Bytes)
read_length (c ∷ s) =
    if c == b'-'
    then (do let t = read_digits 0 s; r ← read_crlf t.1; if t.0 == 1 then some (none, r) else none)
    else do let t = read_digits 0 (c ∷ s); r ← read_crlf t.1; some (some t.0, r)
read_length [] = none

read_int : Bytes → Option (ℤ × Bytes)
read_int (c ∷ s) =
    if c == b'-'
    then (do
      let t = read_digits 0 s
      r ← read_crlf t.1
      if t.0 == 0 then none else some (negsuc (t.0 - 1), r))
    else do let t = read_digits 0 (c ∷ s); r ← read_crlf t.1; some (pos t.0, r)
read_int [] = none

-- The `n` bytes of a bulk string and the line end behind them.
read_body : ℕ → Bytes → Option (Bytes × Bytes)
read_body n s = if ltb (length s) n then none else do r ← read_crlf (drop n s); some (take n s, r)

read_bulk : Option ℕ × Bytes → Option (Item × Bytes)
read_bulk (none, s) = some (nil_bulk, s)
read_bulk (some n, s) = do t ← read_body n s; some (bulk t.0, t.1)

decode_item : Bytes → Option (Item × Bytes)
decode_item [] = none
decode_item (c ∷ s) =
    if c == b'$'
    then (do t ← read_length s; read_bulk t)
    else if c == b':'
    then (do t ← read_int s; some (integer t.0, t.1))
    else if c == b'_'
    then (do r ← read_crlf s; some (null, r))
    else none

decode_items : ℕ → Bytes → Option (List Item × Bytes)
decode_items zero s = some ([], s)
decode_items (suc n) s = do t ← decode_item s; r ← decode_items n t.1; some (t.0 ∷ r.0, r.1)

read_array : Option ℕ × Bytes → Option (Reply × Bytes)
read_array (none, s) = some (nil_array, s)
read_array (some n, s) = do t ← decode_items n s; some (array t.0, t.1)

-- The first reply of a stream and what follows it; `none` if no reply stands there.
unfoldable pub decode : Bytes → Option (Reply × Bytes)
unfolding decode_item decode_items read_array read_line read_crlf read_length read_int read_body
    read_bulk read_digits
decode [] = none
decode (c ∷ s) =
    if c == b'+'
    then (do t ← read_line s; some (simple t.0, t.1))
    else if c == b'-'
    then (do t ← read_line s; some (error t.0, t.1))
    else if c == b'*'
    then (do t ← read_length s; read_array t)
    else do t ← decode_item (c ∷ s); some (item t.0, t.1)

decode_test :
    decode (codes "*2" ++ crlf ++ codes "$3" ++ crlf ++ codes "abc" ++ crlf ++ codes ":-12" ++ crlf)
    ≡ some (array (bulk (codes "abc") ∷ integer (negsuc 11) ∷ []), [])
unfolding decode
decode_test = refl

decode_cut : decode (codes "*1" ++ crlf ++ codes "$3" ++ crlf ++ codes "abc") ≡ none
unfolding decode
decode_cut = refl
