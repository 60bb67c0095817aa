-- ===== src/Pitr/Operations/Rows.antt =====
-- What an update of the statuses does to the rows of the operations, row by row: UpdateIfStatus of
-- internal/server/pitr/store.go.
use mysql_pitr.Base.{
  ◌≡◌, ◌≢◌, ◌⊎◌, refl, true, false, List, [], ◌∷◌, inl, inr, any, Bool-cases, arith,
}
use mysql_pitr.Base.Text.{Text, text_eq_iff}
use mysql_pitr.Binlog.Types.{Time}
use mysql_pitr.Pitr.State.{OperationState, state_eq_iff}
use mysql_pitr.Pitr.Operations.{Operation, is_row, set_rows}

-- The rows of the operation that still have the status `from` get the status `to` and the time;
-- every other row is as it was.
abbrev pub SwappedRows :
    {G : Type 0}
    → Text
    → OperationState
    → OperationState
    → Time
    → List (Operation G)
    → List (Operation G)
    → Type 0
SwappedRows id from to ts [] [] = Unit
SwappedRows id from to ts (r ∷ rs) (r' ∷ rs') =
    (((r.id ≡ id) × (r.status ≡ from) × (r' ≡ record r { status = to; updated_at = ts }))
      ⊎ (((r.id ≢ id) ⊎ (r.status ≢ from)) × (r' ≡ r)))
    × SwappedRows id from to ts rs rs'
SwappedRows id from to ts _ _ = ⊥

-- Some row of the operation has the status.
abbrev pub HasRow : {G : Type 0} → Text → OperationState → List (Operation G) → Type 0
HasRow id from [] = ⊥
HasRow id from (r ∷ rs) = ((r.id ≡ id) × (r.status ≡ from)) ⊎ HasRow id from rs

module _ {G : Type 0} (id : Text) (from : OperationState) where
  is_row-true : (r : Operation G) → is_row id from r ≡ true → (r.id ≡ id) × (r.status ≡ from)
  is_row-true r h = ground (arith, text_eq_iff r.id id, state_eq_iff r.status from)

  is_row-false : (r : Operation G) → is_row id from r ≡ false → (r.id ≢ id) ⊎ (r.status ≢ from)
  is_row-false r h = ground (arith, text_eq_iff r.id id, state_eq_iff r.status from)

  pub set_rows-SwappedRows :
      (to : OperationState) (ts : Time) (rs : List (Operation G))
      → SwappedRows id from to ts rs (set_rows id from to ts rs)
  set_rows-SwappedRows to ts [] = tt
  set_rows-SwappedRows to ts (r ∷ rs) = elim (Bool-cases (is_row id from r)) [
    | inl e ↦ let (i, s) = is_row-true r e in rw e (inl (i, s, refl), set_rows-SwappedRows to ts rs)
    | inr e ↦ rw e (inr (is_row-false r e, refl), set_rows-SwappedRows to ts rs)
  ]

  pub any-HasRow : (rs : List (Operation G)) → any (is_row id from) rs ≡ true → HasRow id from rs
  any-HasRow [] h = cc
  any-HasRow (r ∷ rs) h = elim (Bool-cases (is_row id from r)) [
    | inl e ↦ inl (is_row-true r e)
    | inr e ↦ inr (any-HasRow rs (rw e at h))
  ]
