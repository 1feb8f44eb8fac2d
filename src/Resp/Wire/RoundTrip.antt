-- ===== src/Resp/Wire/RoundTrip.antt =====
-- The decoder reads back what the encoder writes.
pub mod Unterminated
use momento_proxy.Base.{
  ℕ, suc, ◌≡◌, refl, true, false, Option, some, List, [], ◌∷◌, ◌++◌, append_assoc, Bytes, ◌==◌,
  length, concat_map, arith, length-append, take-length-append, drop-length-append,
}
use momento_proxy.Base.Int.{ℤ, pos, negsuc}
use momento_proxy.Base.Decimal.{decimal, decimal_int}
use momento_proxy.Base.Decimal.Read.{read_digits, read_digits-decimal, decimal-begins, is_digit}
use momento_proxy.Resp.Wire.{
  Item, bulk, nil_bulk, integer, null, Reply, simple, error, item, array, nil_array, crlf,
  encode_item, encode, ◌>>=◌, read_crlf, read_line, read_length, read_int, read_body, read_bulk,
  decode_item, decode_items, decode,
}

-- A text that stands on one line.
abbrev pub IsLine : Bytes → Type 0
IsLine [] = Unit
IsLine (c ∷ t) = ((c == 13) ≡ false) × IsLine t

abbrev pub IsReply : Reply → Type 0
IsReply (simple t) = IsLine t
IsReply (error t) = IsLine t
IsReply _ = Unit

read_length_number :
    (c : ℕ) (t : Bytes) (n : ℕ) (s : Bytes)
    → is_digit c ≡ true
    → read_digits 0 (c ∷ t) ≡ (n, 13 ∷ 10 ∷ s)
    → read_length (c ∷ t) ≡ some (some n, s)
unfolding read_length read_crlf
read_length_number c t n s h e = ground arith

read_length-decimal :
    (n : ℕ) (s : Bytes) → read_length (decimal n ++ (crlf ++ s)) ≡ some (some n, s)
read_length-decimal n s =
    let (c, t, e, h) = decimal-begins n in
    rw e (
      read_length_number c (t ++ (crlf ++ s)) n s h
        (rw e at (read_digits-decimal n (crlf ++ s) refl)))

read_int_number :
    (c : ℕ) (t : Bytes) (n : ℕ) (s : Bytes)
    → is_digit c ≡ true
    → read_digits 0 (c ∷ t) ≡ (n, 13 ∷ 10 ∷ s)
    → read_int (c ∷ t) ≡ some (pos n, s)
unfolding read_int read_crlf
read_int_number c t n s h e = ground arith

read_int_negative :
    (t : Bytes) (n : ℕ) (s : Bytes)
    → read_digits 0 t ≡ (suc n, 13 ∷ 10 ∷ s)
    → read_int (b'-' ∷ t) ≡ some (negsuc n, s)
unfolding read_int read_crlf
read_int_negative t n s e = ground arith

read_int-decimal_int : (z : ℤ) (s : Bytes) → read_int (decimal_int z ++ (crlf ++ s)) ≡ some (z, s)
unfolding decimal_int
read_int-decimal_int (pos n) s =
    let (c, t, e, h) = decimal-begins n in
    rw e (
      read_int_number c (t ++ (crlf ++ s)) n s h (rw e at (read_digits-decimal n (crlf ++ s) refl)))
read_int-decimal_int (negsuc n) s =
    read_int_negative (decimal (suc n) ++ (crlf ++ s)) n s
      (read_digits-decimal (suc n) (crlf ++ s) refl)

read_body_lem : (b s : Bytes) → read_body (length b) (b ++ (crlf ++ s)) ≡ some (b, s)
unfolding read_body read_crlf
read_body_lem b s = ground (
  arith,
  length-append b (crlf ++ s),
  take-length-append b (crlf ++ s),
  drop-length-append b (crlf ++ s),
)

read_line_lem : (t s : Bytes) → IsLine t → read_line (t ++ (crlf ++ s)) ≡ some (t, s)
unfolding read_line read_crlf
read_line_lem [] s h = refl
read_line_lem (c ∷ t) s h = ground (arith, read_line_lem t s h.1)

decode_item_bulk :
    (t s : Bytes) (n : ℕ) (u b r : Bytes)
    → read_length t ≡ some (some n, u)
    → read_body n u ≡ some (b, r)
    → decode_item (b'$' ∷ t) ≡ some (bulk b, r)
unfolding decode_item read_bulk
decode_item_bulk t s n u b r e f = rw e (rw f)

decode_item_integer :
    (t : Bytes) (z : ℤ) (r : Bytes)
    → read_int t ≡ some (z, r)
    → decode_item (b':' ∷ t) ≡ some (integer z, r)
unfolding decode_item
decode_item_integer t z r e = rw e

decode_item-encode_item : (i : Item) (s : Bytes) → decode_item (encode_item i ++ s) ≡ some (i, s)
unfolding encode_item
decode_item-encode_item (bulk b) s = simp append_assoc (
    decode_item_bulk _ s (length b) _ b s (read_length-decimal (length b) (b ++ (crlf ++ s)))
      (read_body_lem b s))
decode_item-encode_item nil_bulk s = unfold decode in refl
decode_item-encode_item (integer z) s =
    simp append_assoc (decode_item_integer _ z s (read_int-decimal_int z s))
decode_item-encode_item null s = unfold decode in refl

decode_items-concat_map :
    (is : List Item) (s : Bytes)
    → decode_items (length is) (concat_map encode_item is ++ s) ≡ some (is, s)
unfolding decode_items
decode_items-concat_map [] s = refl
decode_items-concat_map (i ∷ is) s =
    simp (append_assoc, decode_item-encode_item, decode_items-concat_map is)

decode_line :
    (t s : Bytes) (r : Bytes)
    → read_line t ≡ some (s, r)
    → (decode (b'+' ∷ t) ≡ some (simple s, r)) × (decode (b'-' ∷ t) ≡ some (error s, r))
unfolding decode
decode_line t s r e = (rw e, rw e)

decode_array :
    (t : Bytes) (n : ℕ) (u : Bytes) (is : List Item) (r : Bytes)
    → read_length t ≡ some (some n, u)
    → decode_items n u ≡ some (is, r)
    → decode (b'*' ∷ t) ≡ some (array is, r)
unfolding decode
decode_array t n u is r e f = rw e (rw f)

abbrev as_item : Option (Item × Bytes) → Option (Reply × Bytes)
as_item t = do u ← t; some (item u.0, u.1)

decode-item :
    (i : Item) (s : Bytes)
    → decode (encode_item i ++ s) ≡ as_item (decode_item (encode_item i ++ s))
unfolding decode encode_item
decode-item (bulk b) s = refl
decode-item nil_bulk s = refl
decode-item (integer z) s = refl
decode-item null s = refl

-- The reply that was encoded is read back, whatever follows it on the stream; the text of a simple
-- string or of an error must stand on one line.
pub decode-encode : (r : Reply) (s : Bytes) → IsReply r → decode (encode r ++ s) ≡ some (r, s)
unfolding encode
decode-encode (simple t) s h = simp append_assoc (decode_line _ t s (read_line_lem t s h)).0
decode-encode (error t) s h = simp append_assoc (decode_line _ t s (read_line_lem t s h)).1
decode-encode (item i) s h = rw (decode-item i s, decode_item-encode_item i s)
decode-encode (array is) s h = simp append_assoc (
    decode_array _ (length is) _ is s
      (read_length-decimal (length is) (concat_map encode_item is ++ s))
      (decode_items-concat_map is s))
decode-encode nil_array s h = unfold decode in refl
