-- ===== src/Reverse/Where/Laws.antt =====
-- Which columns a reverse statement is located by: buildWhere of internal/reverse/generator.go.

use mysql_pitr.Base.{
  ap, ◌+◌, length, length-append, ◌∙◌, ℕ, ◌≡◌, refl, List, [], ◌∷◌, ◌++◌, arith, All,
}
use mysql_pitr.Base.Text.{Text, codes, join}
use mysql_pitr.Binlog.Types.{Value, RowChange}
use mysql_pitr.Reverse.Types.{Formats}
use mysql_pitr.Reverse.Where.{
  build_where, build_where_cols, build_where_cols_at, where_by_key, resolve_pk_indices,
  usable_indices,
}
use mysql_pitr.Reverse.Where.Places.{
  IsUsable, IsCovered, conditions, where_parts_at-conditions_at, where_parts-conditions_from,
  resolve_pk_indices-IsKeyPlace, usable_indices-IsUsable, usable-IsCovered, resolved, used,
}

-- What locates a row: the conditions on the places, or on all columns if there is none.
where_by_key-conditions :
    (fmt : Formats) (cols : List Text) (vs : List Value) (places : List ℕ) (warns : List Text)
    → where_by_key fmt cols vs places warns
      ≡ (join (codes " AND ") (conditions fmt cols vs places), warns)
unfolding build_where_cols build_where_cols_at
where_by_key-conditions fmt cols vs [] warns =
    ap (λ ts. (join (codes " AND ") ts, warns)) (where_parts-conditions_from fmt 0 cols vs)
where_by_key-conditions fmt cols vs (i ∷ places) warns =
    ap (λ ts. (join (codes " AND ") ts, warns))
      (where_parts_at-conditions_at fmt cols vs (i ∷ places))

-- The row is located by conditions on places, or on all of its columns if there is no place. Each
-- place is one of a column of the key with a value in the image; and each column of the key is at
-- such a place, or lacks one. There is a warning for each column of the key that has no place, so
-- none for a table without a key.
pub build_where-by_key :
    (fmt : Formats) (rc : RowChange) (cols pk : List Text)
    → let (cond, warns) = build_where fmt rc cols pk in
      (places : List ℕ) × (cond ≡ join (codes " AND ") (conditions fmt cols rc.after places))
      × All (IsUsable cols pk rc.after) places
      × All (IsCovered cols rc.after places) pk
      × (length warns + length places ≡ length pk)
unfolding build_where
build_where-by_key fmt rc cols [] = (
  [],
  ap (λ (r : Text × List Text). r.0) (where_by_key-conditions fmt cols rc.after [] []),
  tt,
  tt,
  refl,
)
build_where-by_key fmt rc cols (p ∷ pk) =
    let (idxs, unresolved) = resolve_pk_indices fmt cols (p ∷ pk) in
    let (places, unusable) = usable_indices fmt cols idxs rc.after in
    let e = where_by_key-conditions fmt cols rc.after places (unresolved ++ unusable) in
    (
      places,
      ap (λ (r : Text × List Text). r.0) e,
      usable_indices-IsUsable fmt cols (p ∷ pk) idxs rc.after
          (resolve_pk_indices-IsKeyPlace fmt cols (p ∷ pk)),
      usable-IsCovered fmt cols rc.after (p ∷ pk),
      ap (λ (r : Text × List Text). length r.1 + length places) e
          ∙ omega (
            arith,
            length-append unresolved unusable,
            resolved fmt cols (p ∷ pk),
            used fmt cols rc.after idxs,
          ),
    )
