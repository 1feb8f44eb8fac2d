-- ===== src/Resp/Utils.antt =====
-- src/protocol/resp/utils.rs, and the formats that the commands of src/protocol/resp share.
use momento_proxy.Base.{
  ℕ, Bool, true, false, none, some, List, [], ◌∷◌, ◌++◌, Bytes, codes, ◌==◌, eq_bytes, length,
  if◌then◌else◌,
}
use momento_proxy.Base.Int.{ℤ}
use momento_proxy.Base.Decimal.{decimal, decimal_int}
use momento_proxy.Base.Exec.{Result, ok, err, panicked, ◌>>=◌, ◌>>◌, for_each}
use momento_proxy.Base.Text.{is_utf8, parse_i32}
use momento_proxy.Error.{ProxyError, io}
use momento_proxy.Client.{Floats, Rpc}
use momento_proxy.Metrics.{Counter, backend_ex}
use momento_proxy.Context.{Context, Handler, increment, write, klogs, call, or_return}

abbrev pub line_end : Bytes
line_end = 13 ∷ 10 ∷ []

-- `format!("${}\r\n", n)`
abbrev pub bulk_header : ℕ → Bytes
bulk_header n = codes "$" ++ decimal n ++ line_end

-- `format!("*{}\r\n", n)`
abbrev pub array_header : ℕ → Bytes
array_header n = codes "*" ++ decimal n ++ line_end

-- `format!(":{}\r\n", n)`
abbrev pub integer_line : ℕ → Bytes
integer_line n = codes ":" ++ decimal n ++ line_end

abbrev pub int_line : ℤ → Bytes
int_line z = codes ":" ++ decimal_int z ++ line_end

-- `*0\r\n`, `*-1\r\n`, `$-1\r\n`, `_\r\n`, `:0\r\n`, `:1\r\n`
abbrev pub empty_array : Bytes
empty_array = codes "*0" ++ line_end

abbrev pub nil_array_line : Bytes
nil_array_line = codes "*-1" ++ line_end

abbrev pub nil_line : Bytes
nil_line = codes "$-1" ++ line_end

abbrev pub null_line : Bytes
null_line = codes "_" ++ line_end

module _ {S E A : Type 0} where
  -- what `inspect_err` does after the future has ended
  unfoldable pub count_error :
      Counter → Result (ProxyError E) A × Context S → Result (ProxyError E) A × Context S
  count_error counter (err e, c) = (err e, (increment {E = E} counter c).1)
  count_error counter (r, c) = (r, c)

  unfoldable pub update_method_metrics : Counter → Counter → Handler S E A → Handler S E A
  unfolding count_error
  update_method_metrics count count_ex future c =
      count_error count_ex (future (increment {E = E} count c).1)

module _ {S E A : Type 0} where
  -- The shape of most commands: `update_method_metrics(&COUNT, &COUNT_EX, async move { .. })` around
  -- `let response = match timeout(.., rpc).await { .. }`, which logs a line or several and returns
  -- the error if the call fails or times out, and then the reply to the response.
  unfoldable pub command :
      Counter
      → Counter
      → Rpc S E A
      → List Bytes
      → List Bytes
      → (A → Handler S E (Unit {0}))
      → Handler S E (Unit {0})
  command count count_ex rpc on_error on_timeout reply = update_method_metrics count count_ex do
    outcome ← call rpc
    response ← or_return (klogs on_error) (klogs on_timeout) outcome
    reply response

module _ {S E : Type 0} where
  -- `for value in values { write!(buf, "${}\r\n", value.len()); buf.extend(value); buf.extend("\r\n") }`
  unfoldable pub write_bulks : List Bytes → Handler S E (Unit {0})
  write_bulks values =
      for_each values λ value. do write (bulk_header (length value)); write value; write line_end

  -- The same loop without the line end behind each value.
  unfoldable pub write_unterminated : List Bytes → Handler S E (Unit {0})
  write_unterminated values =
      for_each values λ value. do write (bulk_header (length value)); write value

  -- `display` is the text of the error.
  unfoldable pub momento_error_to_resp_error : (E → Bytes) → E → Handler S E (Unit {0})
  momento_error_to_resp_error display error = do
    increment backend_ex
    write (codes "-ERR backend error: " ++ display error ++ line_end)

module _ {E : Type 0} where
  unfoldable pub parse_score_boundary_as_integer : Bytes → Result (ProxyError E) ℤ
  parse_score_boundary_as_integer value =
      if is_utf8 value
      then (elim (parse_i32 value) [
        | none ↦ err (io "ZRANGE index is not an integer")
        | some index ↦ ok index
      ])
      else err (io "ZRANGE index is not valid utf8")

  module _ (F : Floats) where
    score_of : Bytes → Bool → Result (ProxyError E) (F.F64 × Bool)
    score_of number exclusive =
        if is_utf8 number
        then (elim (F.parse number) [
          | none ↦ err (io "ZRANGE score is not a float")
          | some score ↦ ok (score, exclusive)
        ])
        else err (io "ZRANGE score is not valid utf8")

    -- `value[0]` of an empty value panics.
    split_boundary : Bytes → Result (ProxyError E) (F.F64 × Bool)
    unfolding score_of
    split_boundary [] = panicked
    split_boundary (c ∷ rest) = if c == b'(' then score_of rest true else score_of (c ∷ rest) false

    unfoldable pub parse_score_boundary_as_float : Bytes → Result (ProxyError E) (F.F64 × Bool)
    unfolding split_boundary eq_bytes
    parse_score_boundary_as_float value =
        if eq_bytes value (codes "+inf")
        then ok (F.infinity, false)
        else if eq_bytes value (codes "-inf")
        then ok (F.neg_infinity, false)
        else split_boundary value
