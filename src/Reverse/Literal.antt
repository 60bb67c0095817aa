-- ===== src/Reverse/Literal.antt =====
-- Identifiers and value literals: quoteIdent, formatValue and their helpers of
-- internal/reverse/generator.go.
pub mod Lexer
pub mod RoundTrip
use mysql_pitr.Base.{
  ℕ, zero, suc, ◌+◌, ◌-◌, ◌/◌, ◌%◌, Bool, true, false, ◌&&◌, List, [], ◌∷◌, ◌++◌, Option, none,
  some, ltb, ◌==◌, if◌then◌else◌, get_elem?, length,
}
use mysql_pitr.Base.Text.{Text, codes, is_empty, join}
use mysql_pitr.Base.Int.{nat_text, int_text}
use mysql_pitr.Binlog.Types.{
  Value, null, int, float32, float64, decimal, time, bytes, str, bool, other, Civil,
}
use mysql_pitr.Reverse.Types.{Formats}

-- The bytes ` ' and \.
abbrev pub backtick : ℕ
backtick = 96

abbrev pub apostrophe : ℕ
apostrophe = 39

abbrev pub backslash : ℕ
backslash = 92

-- `strings.ReplaceAll` of a one-byte pattern.
unfoldable pub replace_byte : ℕ → Text → Text → Text
replace_byte c new [] = []
replace_byte c new (x ∷ s) =
    let rest = replace_byte c new s in if x == c then new ++ rest else x ∷ rest

-- `strings.TrimRight` with a one-byte cutset.
trim_right : ℕ → Text → Text
trim_right c [] = []
trim_right c (x ∷ s) = let rest = trim_right c s in if is_empty rest && x == c then [] else x ∷ rest

unfoldable pub quote_ident : Text → Text
unfolding replace_byte
quote_ident s = backtick ∷ (replace_byte backtick (codes "``") s ++ codes "`")

-- `n` in decimal, with leading zeros up to `width` digits.
pad : ℕ → ℕ → Text
pad zero n = []
pad (suc width) n = pad width (n / 10) ++ (b'0' + n % 10) ∷ []

-- The layout "2006-01-02 15:04:05.000000", for the years of four digits.
layout_time : Civil → Text
unfolding pad
layout_time t =
    pad 4 t.year
    ++ (b'-'
        ∷ (pad 2 t.month
            ++ (b'-'
                ∷ (pad 2 t.day
                    ++ (b' '
                        ∷ (pad 2 t.hour
                            ++ (b':'
                                ∷ (pad 2 t.minute
                                    ++ (b':'
                                        ∷ (pad 2 t.second
                                            ++ (b'.' ∷ pad 6 (t.nanos / 1000))))))))))))

unfoldable pub time_text : Civil → Text
unfolding layout_time trim_right
time_text t = trim_right b'.' (trim_right b'0' (layout_time t))

unfoldable pub hex_digit : ℕ → ℕ
hex_digit d = if ltb d 10 then b'0' + d else b'a' + (d - 10)

-- The verb %x of a byte slice.
unfoldable pub hex_text : Text → Text
unfolding hex_digit
hex_text [] = []
hex_text (b ∷ s) = hex_digit (b / 16) ∷ hex_digit (b % 16) ∷ hex_text s

unfoldable pub escape : Text → Text
unfolding replace_byte
escape s =
    replace_byte apostrophe (codes "''") (replace_byte backslash (backslash ∷ backslash ∷ []) s)

unfoldable pub quoted : Text → Text
quoted s = apostrophe ∷ (s ++ codes "'")

module _ (fmt : Formats) where
  unfoldable pub format_value : Value → Text
  unfolding time_text hex_text escape quoted int_text
  format_value null = codes "NULL"
  format_value (int n) = int_text n
  format_value (float32 x) = fmt.float32_text x
  format_value (float64 x) = fmt.float64_text x
  format_value (decimal c e) = fmt.decimal_text c e
  format_value (time t) = quoted (time_text t)
  format_value (bytes s) = b'X' ∷ quoted (hex_text s)
  format_value (str s) = quoted (escape s)
  format_value (bool true) = codes "1"
  format_value (bool false) = codes "0"
  format_value (other s) = quoted s

  abbrev values_texts : List Value → List Text
  values_texts [] = []
  values_texts (v ∷ vs) = format_value v ∷ values_texts vs

  unfoldable pub join_values : List Value → Text
  unfolding format_value
  join_values vs = join (codes ", ") (values_texts vs)

  -- Beyond the image the literal is NULL.
  unfoldable pub value_at : List Value → ℕ → Text
  unfolding format_value
  value_at vs i = elim (get_elem? vs i) [ none ↦ codes "NULL" | some v ↦ format_value v ]

quoted_names : List Text → List Text
unfolding quote_ident
quoted_names [] = []
quoted_names (c ∷ cols) = quote_ident c ∷ quoted_names cols

unfoldable pub join_quoted : List Text → Text
unfolding quoted_names
join_quoted cols = join (codes ", ") (quoted_names cols)
