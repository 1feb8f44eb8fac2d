-- ===== src/Klog.antt =====
-- src/klog.rs: the lines of the command log. A line is returned where the source writes it.
pub mod Unescape
pub mod ReadBack
use momento_proxy.Base.{
  ℕ, ◌+◌, ◌-◌, ◌/◌, ◌%◌, ◌&&◌, ◌||◌, [], ◌∷◌, ◌++◌, Bytes, String, codes, leb, ltb, ◌==◌,
  if◌then◌else◌, concat_map,
}
use momento_proxy.Base.Int.{ℤ}
use momento_proxy.Base.Decimal.{decimal, decimal_int}

pub data Status : Type 0 where
  miss hit stored exists deleted not_found not_stored client_error server_error timeout : Status

-- `status as u8`
unfoldable pub status_code : Status → ℕ
status_code miss = 0
status_code hit = 4
status_code stored = 5
status_code exists = 6
status_code deleted = 7
status_code not_found = 8
status_code not_stored = 9
status_code client_error = 10
status_code server_error = 11
status_code timeout = 12

hex_digit : ℕ → ℕ
hex_digit d = if ltb d 10 then b'0' + d else b'a' + (d - 10)

-- `std::ascii::escape_default`
unfoldable pub escape_default : ℕ → Bytes
unfolding hex_digit
escape_default c =
    if c == 9
    then 92 ∷ b't' ∷ []
    else if c == 13
    then 92 ∷ b'r' ∷ []
    else if c == 10
    then 92 ∷ b'n' ∷ []
    else if (c == 39) || ((c == 34) || (c == 92))
    then 92 ∷ c ∷ []
    else if leb 32 c && leb c 126
    then c ∷ []
    else 92 ∷ b'x' ∷ hex_digit (c / 16) ∷ hex_digit (c % 16) ∷ []

-- `Display for EscapedStr`
unfoldable pub escaped : Bytes → Bytes
unfolding escape_default
escaped = concat_map escape_default

abbrev space : Bytes
space = 32 ∷ []

abbrev quote : Bytes
quote = 34 ∷ []

unfoldable pub klog_1 : String → Bytes → Status → ℕ → Bytes
unfolding escaped status_code decimal
klog_1 command key status response_len =
    quote
    ++ codes command
    ++ space
    ++ escaped key
    ++ quote
    ++ space
    ++ decimal (status_code status)
    ++ space
    ++ decimal response_len

unfoldable pub klog_2 : String → Bytes → Bytes → Status → ℕ → Bytes
unfolding escaped status_code decimal
klog_2 command key field status response_len =
    quote
    ++ codes command
    ++ space
    ++ escaped key
    ++ space
    ++ escaped field
    ++ quote
    ++ space
    ++ decimal (status_code status)
    ++ space
    ++ decimal response_len

unfoldable pub klog_7 : String → Bytes → Bytes → ℤ → ℕ → Status → ℕ → Bytes
unfolding escaped status_code decimal_int decimal
klog_7 command key field ttl value_len status response_len =
    quote
    ++ codes command
    ++ space
    ++ escaped key
    ++ space
    ++ escaped field
    ++ space
    ++ decimal_int ttl
    ++ space
    ++ decimal value_len
    ++ quote
    ++ space
    ++ decimal (status_code status)
    ++ space
    ++ decimal response_len

unfoldable pub klog_set : Bytes → ℕ → ℤ → ℕ → Status → ℕ → Bytes
unfolding escaped status_code decimal_int decimal
klog_set key flags ttl value_len status response_len =
    quote
    ++ codes "set"
    ++ space
    ++ escaped key
    ++ space
    ++ decimal flags
    ++ space
    ++ decimal_int ttl
    ++ space
    ++ decimal value_len
    ++ quote
    ++ space
    ++ decimal (status_code status)
    ++ space
    ++ decimal response_len
