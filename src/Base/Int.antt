-- ===== src/Base/Int.antt =====
-- Go's signed `int`, and its decimal text (the verb %d).
use mysql_pitr.Base.{
  ℕ, zero, suc, ◌+◌, ◌/◌, ◌%◌, [], ◌∷◌, ◌++◌, Bool, true, false, ltb, if◌then◌else◌,
}
use mysql_pitr.Base.Text.{Text}

-- `negsuc n` is -(n + 1).
pub data ℤ : Type 0 where
  pos : ℕ → ℤ
  negsuc : ℕ → ℤ

-- `v <= 0`.
abbrev pub is_nonpositive : ℤ → Bool
is_nonpositive (pos zero) = true
is_nonpositive (pos (suc n)) = false
is_nonpositive (negsuc n) = true

-- The value of a nonnegative integer; 0 for a negative one.
abbrev pub pos_part : ℤ → ℕ
pos_part (pos n) = n
pos_part (negsuc n) = 0

-- At most `fuel` decimal digits; `suc n` is fuel enough for `n`.
unfoldable pub digits_text : ℕ → ℕ → Text
digits_text zero n = []
digits_text (suc fuel) n =
    let front = digits_text fuel (n / 10) in
    if ltb n 10 then (b'0' + n) ∷ [] else front ++ (b'0' + n % 10) ∷ []

unfoldable pub nat_text : ℕ → Text
unfolding digits_text
nat_text n = digits_text (suc n) n

unfoldable pub int_text : ℤ → Text
unfolding nat_text
int_text (pos n) = nat_text n
int_text (negsuc n) = b'-' ∷ nat_text (suc n)
