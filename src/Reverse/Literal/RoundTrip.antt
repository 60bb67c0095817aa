-- ===== src/Reverse/Literal/RoundTrip.antt =====
-- What internal/reverse/generator.go quotes is read back as it was: no identifier and no value can
-- end its quotes early.
use mysql_pitr.Base.{
  ℕ, ◌+◌, ◌*◌, ◌/◌, ◌%◌, ◌<◌, ◌≡◌, refl, ap, ◌∙◌, false, inl, inr, [], ◌∷◌, ◌++◌, some, arith, ◌==◌,
  if◌then◌else◌, Bool-cases, ==_iff, append_assoc, All,
}
use mysql_pitr.Base.Text.{Text}
use mysql_pitr.Binlog.Types.{bytes, str}
use mysql_pitr.Reverse.Types.{Formats}
use mysql_pitr.Reverse.Literal.{
  replace_byte, quote_ident, hex_digit, hex_text, escape, format_value,
}
use mysql_pitr.Reverse.Literal.Lexer.{
  push, read_ident, read_string, hex_value, read_hex, read_name, read_text, read_bytes,
}

-- The text does not go on with the byte `c`.
abbrev pub Stops : ℕ → Text → Type 0
Stops c [] = Unit {0}
Stops c (d ∷ s) = (d == c) ≡ false

read_ident_plain :
    (c : ℕ) (t : Text) → (c == 96) ≡ false → read_ident (c ∷ t) ≡ push c (read_ident t)
unfolding read_ident
read_ident_plain c [] h = ground arith
read_ident_plain c (d ∷ t) h = rw h

read_ident_end : (rest : Text) → Stops 96 rest → read_ident (96 ∷ rest) ≡ some ([], rest)
unfolding read_ident
read_ident_end [] h = refl
read_ident_end (d ∷ rest) h = rw h

read_ident_doubled : (t : Text) → read_ident (96 ∷ 96 ∷ t) ≡ push 96 (read_ident t)
unfolding read_ident
read_ident_doubled t = refl

read_ident-replace :
    (s rest : Text)
    → Stops 96 rest
    → read_ident (replace_byte 96 (96 ∷ 96 ∷ []) s ++ (96 ∷ rest)) ≡ some (s, rest)
unfolding replace_byte
read_ident-replace [] rest h = read_ident_end rest h
read_ident-replace (c ∷ s) rest h = elim (Bool-cases (c == 96)) [
  | inl e ↦
      rw (e, (==_iff c 96).0 e) (read_ident_doubled _ ∙ ap (push 96) (read_ident-replace s rest h))
  | inr e ↦ rw e (read_ident_plain c _ e ∙ ap (push c) (read_ident-replace s rest h))
]

-- Reading a quoted identifier by the rules of MySQL gives the identifier back, whatever bytes it has,
-- and what follows it, if that does not begin with a backtick.
pub read_name-quote_ident :
    (s rest : Text) → Stops 96 rest → read_name (quote_ident s ++ rest) ≡ some (s, rest)
unfolding quote_ident read_name
read_name-quote_ident s rest h =
    rw (append_assoc (replace_byte 96 (96 ∷ 96 ∷ []) s) (96 ∷ []) rest)
      (read_ident-replace s rest h)

-- What one byte of a value becomes.
abbrev escape_byte : ℕ → Text
escape_byte c = if c == 39 then 39 ∷ 39 ∷ [] else if c == 92 then 92 ∷ 92 ∷ [] else c ∷ []

escape-cons : (c : ℕ) (s : Text) → escape (c ∷ s) ≡ escape_byte c ++ escape s
unfolding escape
escape-cons c s = ground arith

read_string_byte : (c : ℕ) (t : Text) → read_string (escape_byte c ++ t) ≡ push c (read_string t)
unfolding read_string
read_string_byte c [] = ground arith
read_string_byte c (d ∷ t) = ground arith

read_string_end : (rest : Text) → Stops 39 rest → read_string (39 ∷ rest) ≡ some ([], rest)
unfolding read_string
read_string_end [] h = refl
read_string_end (d ∷ rest) h = rw h

read_string-escape :
    (s rest : Text) → Stops 39 rest → read_string (escape s ++ (39 ∷ rest)) ≡ some (s, rest)
unfolding escape
read_string-escape [] rest h = read_string_end rest h
read_string-escape (c ∷ s) rest h =
    ap (λ t. read_string (t ++ (39 ∷ rest))) (escape-cons c s)
    ∙ ap read_string (append_assoc (escape_byte c) (escape s) (39 ∷ rest))
    ∙ read_string_byte c (escape s ++ (39 ∷ rest))
    ∙ ap (push c) (read_string-escape s rest h)

-- Reading the literal of a character value by the rules of MySQL gives the value back, whatever
-- bytes it has, and what follows it, if that does not begin with an apostrophe.
pub read_text-str :
    (fmt : Formats) (s rest : Text)
    → Stops 39 rest
    → read_text (format_value fmt (str s) ++ rest) ≡ some (s, rest)
unfolding format_value read_text
read_text-str fmt s rest h =
    rw (append_assoc (escape s) (39 ∷ []) rest) (read_string-escape s rest h)

hex_digit_value :
    (d : ℕ) → d < 16 → (hex_value (hex_digit d) ≡ some d) × ((hex_digit d == 39) ≡ false)
unfolding hex_digit
hex_digit_value d h = (ground arith, ground arith)

read_hex_pair :
    (b : ℕ) (t : Text)
    → b < 256
    → read_hex (hex_digit (b / 16) ∷ hex_digit (b % 16) ∷ t) ≡ push b (read_hex t)
unfolding read_hex
read_hex_pair b t h =
    let (high, apart) = hex_digit_value (b / 16) (omega arith) in
    let (low, _) = hex_digit_value (b % 16) (omega arith) in
    let whole : b / 16 * 16 + b % 16 ≡ b = omega arith in rw (apart, high, low, whole)

read_hex-hex_text :
    (s rest : Text) → All (λ b. b < 256) s → read_hex (hex_text s ++ (39 ∷ rest)) ≡ some (s, rest)
unfolding hex_text
read_hex-hex_text [] [] h = unfold read_hex in refl
read_hex-hex_text [] (d ∷ rest) h = unfold read_hex in refl
read_hex-hex_text (b ∷ s) rest h =
    read_hex_pair b (hex_text s ++ (39 ∷ rest)) h.0 ∙ ap (push b) (read_hex-hex_text s rest h.1)

-- Reading the hexadecimal literal of a value of bytes below 256 gives its bytes back, and what
-- follows it.
pub read_bytes-bytes :
    (fmt : Formats) (s rest : Text)
    → All (λ b. b < 256) s
    → read_bytes (format_value fmt (bytes s) ++ rest) ≡ some (s, rest)
unfolding format_value read_bytes
read_bytes-bytes fmt s rest h =
    rw (append_assoc (hex_text s) (39 ∷ []) rest) (read_hex-hex_text s rest h)
