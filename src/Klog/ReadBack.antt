-- ===== src/Klog/ReadBack.antt =====
-- What can be read back from the lines of the command log.
use momento_proxy.Base.{
  ℕ, suc, ◌+◌, ◌-◌, ◌≡◌, refl, sym, ap, ◌∙◌, Option, none, some, List, [], ◌∷◌, ◌++◌, append-nil,
  append_assoc, Bytes, String, codes, length, length-append, ◌==◌, if◌then◌else◌, arith,
}
use momento_proxy.Base.Int.{ℤ}
use momento_proxy.Base.Decimal.{decimal, decimal_int}
use momento_proxy.Base.Decimal.Read.{read_digits, read_digits-decimal}
use momento_proxy.Klog.{
  Status, status_code, escape_default, escaped, klog_1, klog_2, klog_7, klog_set,
}
use momento_proxy.Klog.Unescape.{
  ◌>>=◌, next_unit, unescape, read_unit, prepend, Spells, AllBytes, Plain, Spells-append,
  Spells-escaped, Spells-Plain, Spells-decimal, Spells-decimal_int,
}

-- A line: what stands between the quotes, the status and the length.
abbrev line : Bytes → Status → ℕ → Bytes
line t status n = 34 ∷ (t ++ 34 ∷ 32 ∷ (decimal (status_code status) ++ 32 ∷ decimal n))

read_space : Bytes → Option Bytes
read_space [] = none
read_space (c ∷ s) = if c == 32 then some s else none

-- The status and the length of a line.
read_figures : Bytes → Option (ℕ × ℕ)
unfolding read_space
read_figures s = do
  s ← read_space s
  let p = read_digits 0 s
  s ← read_space p.1
  some (p.0, (read_digits 0 s).0)

-- The text between the quotes of a line, its status and its length.
pub read_line : Bytes → Option (Bytes × ℕ × ℕ)
read_line [] = none
read_line (c ∷ s) = do
  (body, r) ← unescape (length s) s
  (status, n) ← read_figures r
  some (body, status, n)

read_figures_lem :
    (status n : ℕ) → read_figures (32 ∷ (decimal status ++ 32 ∷ decimal n)) ≡ some (status, n)
unfolding read_figures read_space
read_figures_lem status n = rw (read_digits-decimal status (32 ∷ decimal n) refl) (
    ap (λ p. some (status, p.0))
      (ap (read_digits 0) (sym (append-nil (decimal n))) ∙ read_digits-decimal n [] tt))

closing :
    (f : ℕ) (body rest : Bytes) → prepend body (unescape (suc f) (34 ∷ rest)) ≡ some (body, rest)
unfolding prepend unescape next_unit read_unit
closing f body rest = ap (λ b. some (b, rest)) (append-nil body)

unescape_line :
    (t body rest : Bytes)
    → Spells t body
    → unescape (length (t ++ 34 ∷ rest)) (t ++ 34 ∷ rest) ≡ some (body, rest)
unescape_line t body rest v =
    let f = length t - length body + length rest in
    let e : length (t ++ 34 ∷ rest) ≡ length body + suc f =
      omega (arith, length-append t (34 ∷ rest), v.fits) in
    ap (λ n. unescape n (t ++ 34 ∷ rest)) e ∙ v.reads (suc f) (34 ∷ rest) ∙ closing f body rest

read_line-line :
    (t body : Bytes) (status : Status) (n : ℕ)
    → Spells t body
    → read_line (line t status n) ≡ some (body, status_code status, n)
unfolding read_line
read_line-line t body status n v =
    let rest = 32 ∷ (decimal (status_code status) ++ 32 ∷ decimal n) in
    ap (λ o. o >>= λ (b, r). read_figures r >>= λ (x, y). some (b, x, y))
      (unescape_line t body rest v)
    ∙ ap (λ o. o >>= λ (x, y). some (body, x, y)) (read_figures_lem (status_code status) n)

-- Words with a space between each two.
abbrev pub words : List Bytes → Bytes
words [] = []
words (w ∷ []) = w
words (w ∷ v ∷ ws) = w ++ 32 ∷ words (v ∷ ws)

Spells-spaced : (t u k m : Bytes) → Spells t k → Spells u m → Spells (t ++ 32 ∷ u) (k ++ 32 ∷ m)
Spells-spaced t u k m v w =
    Spells-append t (32 ∷ u) k (32 ∷ m) v
      (Spells-append (32 ∷ []) u (32 ∷ []) m (Spells-Plain (32 ∷ []) (omega arith)) w)

ruleset lists = (append_assoc, append-nil)

module _ (command : String) (key : Bytes) (status : Status) (n : ℕ) where
  klog_1_lem : klog_1 command key status n ≡ line (codes command ++ 32 ∷ escaped key) status n
  unfolding klog_1
  klog_1_lem = simp lists

  klog_2_lem :
      (field : Bytes)
      → klog_2 command key field status n
        ≡ line (codes command ++ 32 ∷ (escaped key ++ 32 ∷ escaped field)) status n
  unfolding klog_2
  klog_2_lem field = simp lists

  klog_7_lem :
      (field : Bytes) (ttl : ℤ) (len : ℕ)
      → klog_7 command key field ttl len status n
        ≡ line
            (codes command
              ++ 32
                ∷ (escaped key
                    ++ 32 ∷ (escaped field ++ 32 ∷ (decimal_int ttl ++ 32 ∷ decimal len))))
            status
            n
  unfolding klog_7
  klog_7_lem field ttl len = simp lists

module _ (key : Bytes) (status : Status) (n : ℕ) where
  klog_set_lem :
      (flags : ℕ) (ttl : ℤ) (len : ℕ)
      → klog_set key flags ttl len status n
        ≡ line
            (codes "set"
              ++ 32
                ∷ (escaped key
                    ++ 32 ∷ (decimal flags ++ 32 ∷ (decimal_int ttl ++ 32 ∷ decimal len))))
            status
            n
  unfolding klog_set
  klog_set_lem flags ttl len = simp lists

-- A line of the command log can be read back: the text between its quotes, which is the command and its
-- arguments with a space between each two, the status and the length of the response. For a command
-- without quotes and backslashes, and arguments of 8-bit bytes.
pub read_line-klog :
    (command : String) (key field : Bytes) (flags : ℕ) (ttl : ℤ) (len : ℕ) (status : Status) (n : ℕ)
    → Plain (codes command)
    → AllBytes key
    → AllBytes field
    → (read_line (klog_1 command key status n)
        ≡ some (words (codes command ∷ key ∷ []), status_code status, n))
      × (read_line (klog_2 command key field status n)
          ≡ some (words (codes command ∷ key ∷ field ∷ []), status_code status, n))
      × (read_line (klog_7 command key field ttl len status n)
          ≡ some (
            words (codes command ∷ key ∷ field ∷ decimal_int ttl ∷ decimal len ∷ []),
            status_code status,
            n,
          ))
      × (read_line (klog_set key flags ttl len status n)
          ≡ some (
            words (codes "set" ∷ key ∷ decimal flags ∷ decimal_int ttl ∷ decimal len ∷ []),
            status_code status,
            n,
          ))
read_line-klog command key field flags ttl len status n p a b =
    let c = Spells-Plain (codes command) p in
    let set = Spells-Plain (codes "set") (omega arith) in
    let k = Spells-escaped key a in
    let f = Spells-escaped field b in
    let last = Spells-spaced _ _ _ _ (Spells-decimal_int ttl) (Spells-decimal len) in
    (
      ap read_line (klog_1_lem command key status n)
          ∙ read_line-line _ _ status n (Spells-spaced _ _ _ _ c k),
      ap read_line (klog_2_lem command key status n field)
          ∙ read_line-line _ _ status n (Spells-spaced _ _ _ _ c (Spells-spaced _ _ _ _ k f)),
      ap read_line (klog_7_lem command key status n field ttl len)
          ∙ read_line-line _ _ status n
              (Spells-spaced _ _ _ _ c (Spells-spaced _ _ _ _ k (Spells-spaced _ _ _ _ f last))),
      ap read_line (klog_set_lem key status n flags ttl len)
          ∙ read_line-line _ _ status n (
              Spells-spaced _ _ _ _ set
                (Spells-spaced _ _ _ _ k (Spells-spaced _ _ _ _ (Spells-decimal flags) last))),
    )

escaped-append : (s t : Bytes) → escaped (s ++ t) ≡ escaped s ++ escaped t
unfolding escaped
escaped-append [] t = refl
escaped-append (c ∷ s) t =
    ap (λ u. escape_default c ++ u) (escaped-append s t)
    ∙ sym (append_assoc (escape_default c) (escaped s) (escaped t))

escaped-spaced : (s t : Bytes) → escaped (s ++ 32 ∷ t) ≡ escaped s ++ 32 ∷ escaped t
unfolding escaped escape_default
escaped-spaced s t = escaped-append s (32 ∷ t)

-- Where the key ends and the field begins is lost: a line with a space in its key is also that of a shorter key
-- and a longer field, whatever they are.
pub klog_2_ambiguous :
    (command : String) (key rest field : Bytes) (status : Status) (n : ℕ)
    → klog_2 command (key ++ 32 ∷ rest) field status n
      ≡ klog_2 command key (rest ++ 32 ∷ field) status n
unfolding klog_2
klog_2_ambiguous command key rest field status n = simp (escaped-spaced, append_assoc)
