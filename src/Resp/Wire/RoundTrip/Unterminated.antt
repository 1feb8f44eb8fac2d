-- ===== src/Resp/Wire/RoundTrip/Unterminated.antt =====
-- Arrays whose elements lack the line end behind them, as LRANGE and most set commands write them.
use momento_proxy.Base.{
  ℕ, suc, ◌≡◌, refl, none, some, List, [], ◌∷◌, ◌++◌, append_assoc, Bytes, length, concat_map,
  arith, drop-length-append,
}
use momento_proxy.Base.Decimal.{decimal}
use momento_proxy.Resp.Wire.{
  crlf, read_crlf, read_length, read_body, read_bulk, read_array, decode_item, decode_items, decode,
}
use momento_proxy.Resp.Wire.RoundTrip.{read_length-decimal}

-- `${}\r\n` and the value.
abbrev pub unterminated : Bytes → Bytes
unterminated b = b'$' ∷ decimal (length b) ++ (crlf ++ b)

abbrev pub unterminated_array : List Bytes → Bytes
unterminated_array bs = b'*' ∷ decimal (length bs) ++ (crlf ++ concat_map unterminated bs)

read_body-none : (b s : Bytes) → read_crlf s ≡ none → read_body (length b) (b ++ s) ≡ none
unfolding read_body
read_body-none b s h = rw (drop-length-append b s, h) (ground arith)

read_crlf-dollar : (s : Bytes) → read_crlf (b'$' ∷ s) ≡ none
unfolding read_crlf
read_crlf-dollar [] = refl
read_crlf-dollar (c ∷ s) = refl

read_crlf-none : (bs : List Bytes) → read_crlf (concat_map unterminated bs) ≡ none
unfolding read_crlf
read_crlf-none [] = refl
read_crlf-none (b ∷ bs) = read_crlf-dollar _

decode_item-none :
    (t u : Bytes) (n : ℕ)
    → read_length t ≡ some (some n, u)
    → read_body n u ≡ none
    → decode_item (b'$' ∷ t) ≡ none
unfolding decode_item read_bulk
decode_item-none t u n e f = rw e (rw f)

decode_array-none :
    (t u : Bytes) (n : ℕ)
    → read_length t ≡ some (some (suc n), u)
    → decode_item u ≡ none
    → decode (b'*' ∷ t) ≡ none
unfolding decode read_array decode_items
decode_array-none t u n e f = rw e (rw f)

-- Such an array is no RESP reply, unless it is empty.
pub decode-unterminated_array :
    (b : Bytes) (bs : List Bytes) → decode (unterminated_array (b ∷ bs)) ≡ none
decode-unterminated_array b bs =
    decode_array-none _ _ (length bs)
      (read_length-decimal (length (b ∷ bs)) (concat_map unterminated (b ∷ bs)))
      (simp append_assoc (
        decode_item-none _ (b ++ concat_map unterminated bs) (length b)
          (read_length-decimal (length b) (b ++ concat_map unterminated bs))
          (read_body-none b (concat_map unterminated bs) (read_crlf-none bs))))
