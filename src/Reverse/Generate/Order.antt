-- ===== src/Reverse/Generate/Order.antt =====
-- The statements that Generate of internal/reverse/generator.go returns, in their order.
use mathlib.Core.List.{reverse}
use mysql_pitr.Base.{ℕ, suc, ◌≡◌, inl, inr, refl, ap, List, [], ◌∷◌, Bool-cases, map, All}
use mysql_pitr.Base.Text.{Text, is_empty}
use mysql_pitr.Base.Int.{ℤ}
use mysql_pitr.Base.Result.{ok-injective, ok}
use mysql_pitr.Binlog.Types.{RowChange, Transaction, TableSchema}
use mysql_pitr.Reverse.Types.{Formats, Options, Statement}
use mysql_pitr.Reverse.Generate.{generate_rows, generate, size_limit}

-- The numbers `i`, `i + 1`, … of a list's places.
abbrev pub places : {A : Type 0} → ℕ → List A → List ℕ
places i [] = []
places i (x ∷ xs) = i ∷ places (suc i) xs

module _ (fmt : Formats) (schema : List (Text × TableSchema)) (limit : ℤ) (tx_id : Text) where
  generate_rows-source :
      (i : ℕ) (rcs : List RowChange)
      → map (λ (st : Statement). st.source_row) (generate_rows fmt schema limit tx_id i rcs) ≡ rcs
  unfolding generate_rows
  generate_rows-source i [] = refl
  generate_rows-source i (rc ∷ rcs) = ap (◌∷◌ rc) (generate_rows-source (suc i) rcs)

  generate_rows-order :
      (i : ℕ) (rcs : List RowChange)
      → map (λ (st : Statement). st.tx_order) (generate_rows fmt schema limit tx_id i rcs)
        ≡ places i rcs
  unfolding generate_rows
  generate_rows-order i [] = refl
  generate_rows-order i (rc ∷ rcs) = ap (◌∷◌ i) (generate_rows-order (suc i) rcs)

  generate_rows-tx :
      (i : ℕ) (rcs : List RowChange)
      → All (λ st. st.tx_id ≡ tx_id) (generate_rows fmt schema limit tx_id i rcs)
  unfolding generate_rows
  generate_rows-tx i [] = tt
  generate_rows-tx i (rc ∷ rcs) = (refl, generate_rows-tx (suc i) rcs)

-- Every row change of the transaction has one statement, the last change first; the statements are
-- numbered from 0 in this order and carry the transaction's identifier.
pub generate-order :
    (fmt : Formats) (tx : Transaction) (schema : List (Text × TableSchema)) (opts : Options)
    (out : List Statement)
    → generate fmt tx schema opts ≡ ok out
    → (map (λ st. st.source_row) out ≡ reverse tx.statements)
      × (map (λ st. st.tx_order) out ≡ places 0 (reverse tx.statements))
      × All (λ st. st.tx_id ≡ tx.tx_id) out
unfolding generate
generate-order fmt tx schema opts out h = elim (Bool-cases (is_empty tx.tx_id)) [
  | inl e ↦ cc (rw (e, generate) at h)
  | inr e ↦
      let limit = size_limit opts.max_statement_size in
      let rows = reverse tx.statements in
      rw (← ok-injective (rw (e, generate) at h)) (
        generate_rows-source fmt schema limit tx.tx_id 0 rows,
        generate_rows-order fmt schema limit tx.tx_id 0 rows,
        generate_rows-tx fmt schema limit tx.tx_id 0 rows,
      )
]
