-- ===== src/Scan/Tables.antt =====
-- The tables of a transaction's metadata in internal/scan/scan.go.
use mysql_pitr.Base.{
  ◌≡◌, refl, Bool, true, false, List, [], ◌∷◌, ◌++◌, arith, any, not, ◌&&◌, ◌||◌, Bool-cases, inl,
  inr,
}
use mysql_pitr.Base.Text.{text_eq_iff}
use mysql_pitr.Binlog.Types.{TableRef, RowChange, Transaction}
use mysql_pitr.Scan.{contains_ref, ref_eq, ref_of, add_tables, meta_of}

-- No table is listed twice.
abbrev pub is_distinct : List TableRef → Bool
is_distinct [] = true
is_distinct (t ∷ ts) = not (contains_ref ts t) && is_distinct ts

-- A table that some row change is of.
abbrev pub touches : List RowChange → TableRef → Bool
touches rcs ref = any (λ rc. ref_eq (ref_of rc) ref) rcs

ref_eq_sym : (a b : TableRef) → ref_eq a b ≡ ref_eq b a
ref_eq_sym a b = ground (
  arith,
  text_eq_iff a.schema b.schema,
  text_eq_iff b.schema a.schema,
  text_eq_iff a.table b.table,
  text_eq_iff b.table a.table,
)

ref_eq_trans : (a b c : TableRef) → ref_eq a b ≡ true → ref_eq b c ≡ true → ref_eq a c ≡ true
ref_eq_trans a b c h k = ground (
  arith,
  text_eq_iff a.schema b.schema,
  text_eq_iff b.schema c.schema,
  text_eq_iff a.schema c.schema,
  text_eq_iff a.table b.table,
  text_eq_iff b.table c.table,
  text_eq_iff a.table c.table,
)

contains_ref-append :
    (ts : List TableRef) (r ref : TableRef)
    → contains_ref (ts ++ r ∷ []) ref ≡ (contains_ref ts ref || ref_eq r ref)
unfolding contains_ref
contains_ref-append [] r ref = ground arith
contains_ref-append (t ∷ ts) r ref = ground (arith, contains_ref-append ts r ref)

contains_ref-eq :
    (ts : List TableRef) (r ref : TableRef)
    → contains_ref ts r ≡ true
    → ref_eq r ref ≡ true
    → contains_ref ts ref ≡ true
unfolding contains_ref
contains_ref-eq [] r ref h e = cc
contains_ref-eq (t ∷ ts) r ref h e = ground (arith, contains_ref-eq ts r ref, ref_eq_trans t r ref)

is_distinct-append :
    (ts : List TableRef) (r : TableRef)
    → is_distinct ts ≡ true
    → contains_ref ts r ≡ false
    → is_distinct (ts ++ r ∷ []) ≡ true
unfolding contains_ref
is_distinct-append [] r h k = refl
is_distinct-append (t ∷ ts) r h k =
    ground (arith, is_distinct-append ts r, contains_ref-append ts r t, ref_eq_sym r t)

add_tables-contains :
    (ts : List TableRef) (rcs : List RowChange) (ref : TableRef)
    → contains_ref (add_tables ts rcs) ref ≡ (contains_ref ts ref || touches rcs ref)
unfolding add_tables
add_tables-contains ts [] ref = ground arith
add_tables-contains ts (rc ∷ rcs) ref = elim (Bool-cases (contains_ref ts (ref_of rc))) [
  | inl e ↦
      rw e (ground (arith, add_tables-contains ts rcs ref, contains_ref-eq ts (ref_of rc) ref e))
  | inr e ↦ rw e (
      ground (
        arith,
        add_tables-contains (ts ++ ref_of rc ∷ []) rcs ref,
        contains_ref-append ts (ref_of rc) ref,
      ))
]

add_tables-distinct :
    (ts : List TableRef) (rcs : List RowChange)
    → is_distinct ts ≡ true
    → is_distinct (add_tables ts rcs) ≡ true
unfolding add_tables
add_tables-distinct ts [] h = h
add_tables-distinct ts (rc ∷ rcs) h = elim (Bool-cases (contains_ref ts (ref_of rc))) [
  | inl e ↦ rw e (add_tables-distinct ts rcs h)
  | inr e ↦
      rw e (add_tables-distinct (ts ++ ref_of rc ∷ []) rcs (is_distinct-append ts (ref_of rc) h e))
]

-- The metadata of a transaction list no table twice, and list a table exactly when some row change
-- of the transaction is of it.
pub meta_of-tables :
    (tx : Transaction)
    → (is_distinct (meta_of tx).tables ≡ true)
      × ((ref : TableRef) → contains_ref (meta_of tx).tables ref ≡ touches tx.statements ref)
unfolding meta_of contains_ref
meta_of-tables tx =
    (add_tables-distinct [] tx.statements refl, λ ref. add_tables-contains [] tx.statements ref)
