-- ===== src/Reverse/Generate/Bounds.antt =====
-- No statement of Generate of internal/reverse/generator.go is too long, and none is left out
-- without a warning.
use mathlib.Core.List.{reverse}
use mysql_pitr.Base.{
  ℕ, suc, ◌≤◌, ◌≡◌, ◌≢◌, ◌⊎◌, inl, inr, refl, List, [], ◌∷◌, arith, Bool-cases, Option-cases,
  length, All,
}
use mysql_pitr.Base.Dict.{lookup}
use mysql_pitr.Base.Text.{Text, is_empty}
use mysql_pitr.Base.Int.{ℤ, pos, negsuc}
use mysql_pitr.Base.Result.{ok-injective, ok}
use mysql_pitr.Binlog.Types.{
  RowChange, RowAction, Transaction, TableSchema, action_insert, action_update, action_delete,
  unknown_action,
}
use mysql_pitr.Reverse.Types.{Formats, Options, Statement}
use mysql_pitr.Reverse.Generate.{
  row_sql, generate_rows, generate, build_reverse_sql, size_limit, checked_sql, known_table_sql,
  table_key, column_names, by_action, reverse_delete, reverse_insert, reverse_update,
}

-- The SQL is at most `limit` long.
abbrev Within : ℤ → Text → Type 0
Within (pos n) sql = length sql ≤ n
Within (negsuc n) sql = sql ≡ []

-- The SQL is within the limit, and where there is none, there is a warning.
abbrev pub Accounted : ℤ → Text → List Text → Type 0
Accounted limit sql warns = Within limit sql × ((sql ≢ []) ⊎ (warns ≢ []))

module _ (fmt : Formats) where
  -- A reverse statement is never empty, unless the action is unknown.
  build_reverse_sql-or_warns :
      (rc : RowChange) (cols pk : List Text)
      → let (sql, warns) = build_reverse_sql fmt rc cols pk in (sql ≢ []) ⊎ (warns ≢ [])
  unfolding build_reverse_sql
  build_reverse_sql-or_warns rc cols pk = by_cases rc.action
    where
      by_cases :
          (a : RowAction)
          → let (sql, warns) = by_action fmt a rc cols pk in (sql ≢ []) ⊎ (warns ≢ [])
      by_cases action_delete = inl (unfold reverse_delete in λ e. cc)
      by_cases action_insert = inl (unfold reverse_insert in λ e. cc)
      by_cases action_update = inl (unfold reverse_update in λ e. cc)
      by_cases (unknown_action n) = inr (λ e. cc)

  checked_sql-Accounted :
      (limit : ℤ) (sql : Text) (warns : List Text)
      → (sql ≢ []) ⊎ (warns ≢ [])
      → let (sql', warns') = checked_sql (sql, warns) limit in Accounted limit sql' warns'
  checked_sql-Accounted (pos n) sql warns h = ground arith
  checked_sql-Accounted (negsuc n) sql warns h = ground arith

  known_table_sql-Accounted :
      (rc : RowChange) (sch : TableSchema) (cols : List Text) (limit : ℤ)
      → let (sql, warns) = known_table_sql fmt rc sch cols limit in Accounted limit sql warns
  known_table_sql-Accounted rc sch [] (pos n) = (omega arith, inr (λ e. cc))
  known_table_sql-Accounted rc sch [] (negsuc n) = (refl, inr (λ e. cc))
  known_table_sql-Accounted rc sch (c ∷ cols) limit =
      checked_sql-Accounted limit _ _ (build_reverse_sql-or_warns rc (c ∷ cols) sch.primary_key)

  no_schema-Accounted : (limit : ℤ) (w : Text) → Accounted limit [] (w ∷ [])
  no_schema-Accounted (pos n) w = (omega arith, inr (λ e. cc))
  no_schema-Accounted (negsuc n) w = (refl, inr (λ e. cc))

  row_sql-Accounted :
      (schema : List (Text × TableSchema)) (limit : ℤ) (rc : RowChange)
      → let (sql, warns) = row_sql fmt schema limit rc in Accounted limit sql warns
  unfolding row_sql
  row_sql-Accounted schema limit rc = elim (Option-cases (lookup (table_key rc) schema)) [
    | inl e ↦ rw (e, row_sql) (no_schema-Accounted limit _)
    | inr (sch, e) ↦ rw (e, row_sql) (known_table_sql-Accounted rc sch (column_names rc sch) limit)
  ]

  generate_rows-Accounted :
      (schema : List (Text × TableSchema)) (limit : ℤ) (tx_id : Text) (i : ℕ) (rcs : List RowChange)
      → All (λ st. Accounted limit st.sql st.warnings) (generate_rows fmt schema limit tx_id i rcs)
  unfolding generate_rows
  generate_rows-Accounted schema limit tx_id i [] = tt
  generate_rows-Accounted schema limit tx_id i (rc ∷ rcs) =
      (row_sql-Accounted schema limit rc, generate_rows-Accounted schema limit tx_id (suc i) rcs)

-- No statement is longer than the limit, and one without SQL carries a warning.
pub generate-Accounted :
    (fmt : Formats) (tx : Transaction) (schema : List (Text × TableSchema)) (opts : Options)
    (out : List Statement)
    → generate fmt tx schema opts ≡ ok out
    → All (λ st. Accounted (size_limit opts.max_statement_size) st.sql st.warnings) out
unfolding generate
generate-Accounted fmt tx schema opts out h = elim (Bool-cases (is_empty tx.tx_id)) [
  | inl e ↦ cc (rw (e, generate) at h)
  | inr e ↦ rw (← ok-injective (rw (e, generate) at h)) (
      generate_rows-Accounted fmt schema (size_limit opts.max_statement_size) tx.tx_id 0
        (reverse tx.statements))
]
