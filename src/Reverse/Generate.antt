-- ===== src/Reverse/Generate.antt =====
-- Reverse statements: Generate, columnNames and buildReverseSQL of internal/reverse/generator.go.
pub mod Order
pub mod Bounds
use mysql_pitr.Base.{
  ℕ, zero, suc, Bool, true, false, List, [], ◌∷◌, ◌++◌, Option, none, some, if◌then◌else◌, ltb,
  ◌==◌, length,
}
use mathlib.Core.List.{reverse}
use mysql_pitr.Base.Text.{Text, codes, is_empty, join}
use mysql_pitr.Base.Int.{ℤ, pos, negsuc, nat_text, int_text}
use mysql_pitr.Base.Dict.{lookup}
use mysql_pitr.Base.Result.{Result, ok, err}
use mysql_pitr.Binlog.Types.{
  Value, RowChange, RowAction, action_insert, action_update, action_delete, unknown_action,
  Transaction, TableSchema, ColumnDef,
}
use mysql_pitr.Reverse.Types.{Formats, Options, Statement, default_max_statement_size}
use mysql_pitr.Reverse.Literal.{quote_ident, join_quoted, join_values, value_at}
use mysql_pitr.Reverse.Where.{build_where}

abbrev column_defs_names : List ColumnDef → List Text
column_defs_names [] = []
column_defs_names (c ∷ cs) = c.name ∷ column_defs_names cs

-- The row's own column names, where it has any.
abbrev own_or_schema : List Text → TableSchema → List Text
own_or_schema [] sch = column_defs_names sch.columns
own_or_schema (c ∷ cols) sch = c ∷ cols

unfoldable pub column_names : RowChange → TableSchema → List Text
column_names rc sch = own_or_schema rc.column_names sch

-- A warning where an image has another number of values than there are columns.
unfoldable pub image_warning : Text → List Value → List Text → List Text
image_warning which image cols =
    if length image == length cols
    then []
    else (which
        ++ (codes " image has "
            ++ (nat_text (length image)
                ++ (codes " values but schema has "
                    ++ (nat_text (length cols) ++ codes " columns")))))
      ∷ []

-- `schema`.`table`, quoted.
abbrev table_text : RowChange → Text
table_text rc = quote_ident rc.schema ++ (codes "." ++ quote_ident rc.table)

-- `len(sql) > size`.
abbrev exceeds : Text → ℤ → Bool
exceeds sql (pos n) = ltb n (length sql)
exceeds sql (negsuc n) = true

-- 0 stands for the default.
abbrev pub size_limit : ℤ → ℤ
size_limit (pos zero) = pos default_max_statement_size
size_limit (pos (suc n)) = pos (suc n)
size_limit (negsuc n) = negsuc n

abbrev pub table_key : RowChange → Text
table_key rc = rc.schema ++ (codes "." ++ rc.table)

abbrev statement : Text → ℕ → RowChange → Text → List Text → Statement
statement tx_id order rc sql warns = record {
  sql = sql;
  tx_id = tx_id;
  tx_order = order;
  source_row = rc;
  warnings = warns;
}

-- The SQL of a row whose columns are known, as far as it may be written.
abbrev checked_sql : Text × List Text → ℤ → Text × List Text
checked_sql (sql, warns) limit =
    if is_empty sql
    then ([], warns)
    else if exceeds sql limit
    then ([], (codes "SQL exceeds MaxStatementSize " ++ int_text limit) ∷ [])
    else (sql, warns)

module _ (fmt : Formats) where
  -- The assignments of the columns from index `i` on.
  unfoldable pub set_parts : ℕ → List Text → List Value → List Text
  set_parts i [] before = []
  set_parts i (c ∷ cols) before =
      (quote_ident c ++ (codes " = " ++ value_at fmt before i)) ∷ set_parts (suc i) cols before

  unfoldable pub reverse_delete : RowChange → List Text → Text × List Text
  reverse_delete rc cols = (
    codes "INSERT INTO "
        ++ (table_text rc
            ++ (codes " ("
                ++ (join_quoted cols
                    ++ (codes ") VALUES (" ++ (join_values fmt rc.before ++ codes ")"))))),
    image_warning (codes "before") rc.before cols,
  )

  unfoldable pub reverse_insert : RowChange → List Text → List Text → Text × List Text
  reverse_insert rc cols pk =
      let (cond, warns) = build_where fmt rc cols pk in
      (
        codes "DELETE FROM " ++ (table_text rc ++ (codes " WHERE " ++ cond)),
        image_warning (codes "after") rc.after cols ++ warns,
      )

  unfoldable pub reverse_update : RowChange → List Text → List Text → Text × List Text
  reverse_update rc cols pk =
      let (cond, warns) = build_where fmt rc cols pk in
      (
        codes "UPDATE "
            ++ (table_text rc
                ++ (codes " SET "
                    ++ (join (codes ", ") (set_parts 0 cols rc.before)
                        ++ (codes " WHERE " ++ cond)))),
        image_warning (codes "before") rc.before cols
            ++ (image_warning (codes "after") rc.after cols ++ warns),
      )

  abbrev by_action : RowAction → RowChange → List Text → List Text → Text × List Text
  by_action action_delete rc cols pk = reverse_delete rc cols
  by_action action_insert rc cols pk = reverse_insert rc cols pk
  by_action action_update rc cols pk = reverse_update rc cols pk
  by_action (unknown_action n) rc cols pk = ([], (codes "unknown action " ++ int_text n) ∷ [])

  unfoldable pub build_reverse_sql : RowChange → List Text → List Text → Text × List Text
  build_reverse_sql rc cols pk = by_action rc.action rc cols pk

  abbrev known_table_sql : RowChange → TableSchema → List Text → ℤ → Text × List Text
  known_table_sql rc sch [] limit =
      ([], (codes "no column names available for " ++ table_key rc) ∷ [])
  known_table_sql rc sch (c ∷ cols) limit =
      checked_sql (build_reverse_sql rc (c ∷ cols) sch.primary_key) limit

  -- The SQL and the warnings of one row.
  pub row_sql : List (Text × TableSchema) → ℤ → RowChange → Text × List Text
  row_sql schema limit rc = elim (lookup (table_key rc) schema) [
    | none ↦ ([], (codes "schema not found for " ++ table_key rc) ∷ [])
    | some sch ↦ known_table_sql rc sch (column_names rc sch) limit
  ]

  -- The loop over the rows from the last to the first, `order` statements being written.
  pub generate_rows : List (Text × TableSchema) → ℤ → Text → ℕ → List RowChange → List Statement
  generate_rows schema limit tx_id order [] = []
  generate_rows schema limit tx_id order (rc ∷ rcs) =
      let (sql, warns) = row_sql schema limit rc in
      statement tx_id order rc sql warns ∷ generate_rows schema limit tx_id (suc order) rcs

  -- The transaction is never nil here.
  unfoldable pub generate :
      Transaction → List (Text × TableSchema) → Options → Result (List Statement)
  generate tx schema opts =
      if is_empty tx.tx_id
      then err (codes "reverse: transaction.TxID is required")
      else ok (
          generate_rows schema (size_limit opts.max_statement_size) tx.tx_id 0
            (reverse tx.statements))
