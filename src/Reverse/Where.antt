-- ===== src/Reverse/Where.antt =====
-- The WHERE clause of a reverse statement: resolvePKIndices, buildWhere and their helpers of
-- internal/reverse/generator.go.
pub mod Places
pub mod Laws
use mysql_pitr.Base.{
  ℕ, zero, suc, Bool, true, false, List, [], ◌∷◌, ◌++◌, Option, none, some, if◌then◌else◌,
  get_elem?,
}
use mathlib.Core.Option
use mysql_pitr.Base.Text.{Text, codes, text_eq, join}
use mysql_pitr.Binlog.Types.{Value, null, RowChange}
use mysql_pitr.Reverse.Types.{Formats}
use mysql_pitr.Reverse.Literal.{quote_ident, format_value}

-- `none` is -1.
unfoldable pub index_of : List Text → Text → Option ℕ
index_of [] s = none
index_of (v ∷ list) s = if text_eq v s then some 0 else Option.map suc (index_of list s)

-- `values[i]`, if the image has it and it is not nil.
unfoldable pub present : List Value → ℕ → Option Value
present vs i = elim (get_elem? vs i) [ none ↦ none | some null ↦ none | some v ↦ some v ]

-- `cols[i]`; the indexes come from `index_of`, so they lie in range.
abbrev pub column_at : List Text → ℕ → Text
column_at cols i = elim (get_elem? cols i) [ none ↦ [] | some c ↦ c ]

module _ (fmt : Formats) where
  -- One predicate: an equation, or IS NULL where the image has no value.
  unfoldable pub predicate : Text → Option Value → Text
  unfolding quote_ident
  predicate col none = quote_ident col ++ codes " IS NULL"
  predicate col (some v) = quote_ident col ++ (codes " = " ++ format_value fmt v)

  -- The predicates of the columns from index `i` on.
  unfoldable pub where_parts : ℕ → List Text → List Value → List Text
  where_parts i [] vs = []
  where_parts i (c ∷ cols) vs = predicate c (present vs i) ∷ where_parts (suc i) cols vs

  unfoldable pub build_where_cols : List Text → List Value → Text
  build_where_cols cols vs = join (codes " AND ") (where_parts 0 cols vs)

  unfoldable pub where_parts_at : List Text → List ℕ → List Value → List Text
  where_parts_at cols [] vs = []
  where_parts_at cols (i ∷ idxs) vs =
      predicate (column_at cols i) (present vs i) ∷ where_parts_at cols idxs vs

  unfoldable pub build_where_cols_at : List Text → List ℕ → List Value → Text
  build_where_cols_at cols idxs vs = join (codes " AND ") (where_parts_at cols idxs vs)

  abbrev missing_key_warning : Text → Text
  missing_key_warning p =
      codes "primary key column "
      ++ (fmt.go_quote p ++ codes " not found in row columns; skipped in WHERE")

  -- The indexes of the key's columns, and a warning for each that the row does not have.
  unfoldable pub resolve_pk_indices : List Text → List Text → List ℕ × List Text
  resolve_pk_indices cols [] = ([], [])
  resolve_pk_indices cols (p ∷ pk) =
      let (idxs, warns) = resolve_pk_indices cols pk in
      elim (index_of cols p) [
        | none ↦ (idxs, missing_key_warning p ∷ warns)
        | some i ↦ (i ∷ idxs, warns)
      ]

  abbrev missing_value_warning : Text → Text
  missing_value_warning c =
      codes "primary key column "
      ++ (fmt.go_quote c ++ codes " has no value in row image; skipped in WHERE")

  -- The indexes whose column has a value in the image, and a warning for each of the others.
  unfoldable pub usable_indices : List Text → List ℕ → List Value → List ℕ × List Text
  usable_indices cols [] vs = ([], [])
  usable_indices cols (i ∷ idxs) vs =
      let (usable, warns) = usable_indices cols idxs vs in
      elim (present vs i) [
        | none ↦ (usable, missing_value_warning (column_at cols i) ∷ warns)
        | some v ↦ (i ∷ usable, warns)
      ]

  -- The key's columns where some of them are usable, else all columns.
  abbrev where_by_key : List Text → List Value → List ℕ → List Text → Text × List Text
  where_by_key cols vs [] warns = (build_where_cols cols vs, warns)
  where_by_key cols vs (i ∷ usable) warns = (build_where_cols_at cols (i ∷ usable) vs, warns)

  unfoldable pub build_where : RowChange → List Text → List Text → Text × List Text
  build_where rc cols [] = (build_where_cols cols rc.after, [])
  build_where rc cols (p ∷ pk) =
      let (idxs, unresolved) = resolve_pk_indices cols (p ∷ pk) in
      let (usable, unusable) = usable_indices cols idxs rc.after in
      where_by_key cols rc.after usable (unresolved ++ unusable)
