-- ===== src/Memcache/Flags.antt =====
-- The flags in front of a stored value: what `set` writes and `get` reads.
use momento_proxy.Base.{
  if◌then◌else◌, ℕ, ◌/◌, ◌%◌, ◌^◌, ◌<◌, ◌≡◌, refl, Bool, true, false, some, ◌≢◌, [], ◌∷◌, ◌++◌,
  Bytes, arith,
}
use momento_proxy.Memcache.{
  SetRequest, to_be_bytes, from_be_bytes, decode_value, encode_value, cached_value,
}

be_bytes_lem :
    (n : ℕ)
    → n < 2 ^ 32
    → from_be_bytes (n / 2 ^ 24 % 256) (n / 2 ^ 16 % 256) (n / 2 ^ 8 % 256) (n % 256) ≡ n
unfolding from_be_bytes
be_bytes_lem n h = omega arith

decode_flags :
    (key rest : Bytes) (b n : ℕ)
    → n < 2 ^ 32
    → decode_value true key (to_be_bytes n ++ b ∷ rest)
      ≡ some (record { key = key; flags = n; content = b ∷ rest })
unfolding decode_value to_be_bytes
decode_flags key rest b n h = rw (be_bytes_lem n h) refl

decode_encode :
    (flags : Bool) (key value : Bytes) (n : ℕ)
    → n < 2 ^ 32
    → value ≢ []
    → decode_value flags key (if flags then to_be_bytes n ++ value else value)
      ≡ some (record { key = key; flags = if flags then n else 0; content = value })
decode_encode flags key [] n h e = absurd (e refl)
decode_encode true key (b ∷ rest) n h e = decode_flags key rest b n h
decode_encode false key (b ∷ rest) n h e = unfold decode_value in refl

-- The value that `get` makes of what `set` has sent to the service, for flags of 32 bits and a value
-- that is not empty, is the one that `set` puts into the in-memory cache: the key, the flags (0 if they
-- are switched off) and the bytes.
pub decode_value-encode_value :
    (flags : Bool) (r : SetRequest)
    → r.flags < 2 ^ 32
    → r.value ≢ []
    → decode_value flags r.key (encode_value flags r) ≡ some (cached_value flags r)
unfolding cached_value encode_value
decode_value-encode_value true r h e = decode_encode true r.key r.value r.flags h e
decode_value-encode_value false r h e = decode_encode false r.key r.value r.flags h e
