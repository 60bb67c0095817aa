-- ===== src/Reverse/Literal/Lexer.antt =====
-- How MySQL reads back what internal/reverse/generator.go writes: quoted identifiers, character
-- literals under the default SQL mode, and hexadecimal literals. Each reader starts behind the
-- opening quote, and returns the text that is meant and what follows the closing quote.
use mysql_pitr.Base.{ℕ, ◌+◌, ◌-◌, ◌*◌, ◌&&◌, [], ◌∷◌, Option, none, some, leb, ◌==◌, if◌then◌else◌}
use mysql_pitr.Base.Text.{Text}

abbrev pub push : ℕ → Option (Text × Text) → Option (Text × Text)
push c none = none
push c (some (s, rest)) = some (c ∷ s, rest)

-- A doubled backtick is one backtick of the name.
unfoldable pub read_ident : Text → Option (Text × Text)
read_ident [] = none
read_ident (c ∷ []) = if c == 96 then some ([], []) else none
read_ident (c ∷ d ∷ s) =
    let doubled = push 96 (read_ident s) in
    let plain = push c (read_ident (d ∷ s)) in
    if c == 96 then (if d == 96 then doubled else some ([], d ∷ s)) else plain

-- What a backslash and the byte after it mean.
abbrev pub unescape : ℕ → ℕ
unescape c =
    if c == b'0'
    then 0
    else if c == b'b'
    then 8
    else if c == b'n'
    then 10
    else if c == b'r'
    then 13
    else if c == b't'
    then 9
    else if c == b'Z'
    then 26
    else c

-- A doubled apostrophe is one; a backslash escapes the next byte.
unfoldable pub read_string : Text → Option (Text × Text)
read_string [] = none
read_string (c ∷ []) = if c == 39 then some ([], []) else none
read_string (c ∷ d ∷ s) =
    let doubled = push 39 (read_string s) in
    let escaped = push (unescape d) (read_string s) in
    let plain = push c (read_string (d ∷ s)) in
    if c == 39
    then (if d == 39 then doubled else some ([], d ∷ s))
    else if c == 92
    then escaped
    else plain

abbrev pub hex_value : ℕ → Option ℕ
hex_value c =
    if leb b'0' c && leb c b'9'
    then some (c - b'0')
    else if leb b'a' c && leb c b'f'
    then some (c - b'a' + 10)
    else none

abbrev pub push_hex : Option ℕ → Option ℕ → Option (Text × Text) → Option (Text × Text)
push_hex (some a) (some b) r = push (a * 16 + b) r
push_hex _ _ r = none

-- Two digits are a byte.
unfoldable pub read_hex : Text → Option (Text × Text)
read_hex [] = none
read_hex (c ∷ []) = if c == 39 then some ([], []) else none
read_hex (c ∷ d ∷ s) =
    let pair = push_hex (hex_value c) (hex_value d) (read_hex s) in
    if c == 39 then some ([], d ∷ s) else pair

-- The three readers with their opening quotes.
unfoldable pub read_name : Text → Option (Text × Text)
read_name [] = none
read_name (c ∷ s) = if c == 96 then read_ident s else none

unfoldable pub read_text : Text → Option (Text × Text)
read_text [] = none
read_text (c ∷ s) = if c == 39 then read_string s else none

unfoldable pub read_bytes : Text → Option (Text × Text)
read_bytes (c ∷ d ∷ s) = if c == b'X' && d == 39 then read_hex s else none
read_bytes _ = none
