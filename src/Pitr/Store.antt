-- ===== src/Pitr/Store.antt =====
-- The SQLite store of the operations and their statements: internal/server/pitr/store.go over the
-- tables of internal/server/store/migrate.go, and internal/server/store/checkpoint.go. Encoding to
-- JSON does not fail for these records, and a decoded record is the encoded one.
pub mod Atomic
use mysql_pitr.Base.{
  ℕ, suc, ◌+◌, ◌==◌, ◌&&◌, not, if◌then◌else◌, Bool, true, false, List, [], ◌∷◌, ◌++◌, Option, none,
  some, any, keep, length, map, ltb, leb,
}
use mysql_pitr.Base.Text.{Text, codes, text_eq, is_empty}
use mysql_pitr.Base.Int.{ℤ, pos, negsuc}
use mysql_pitr.Base.Dict.{lookup, insert}
use mysql_pitr.Base.Result.{Result, ok, err}
use mysql_pitr.Binlog.Types.{Time, TableRef}
use mysql_pitr.Pitr.State.{OperationState, created, state_eq, state_text}
use mysql_pitr.Pitr.Preview.{int_eq}
use mysql_pitr.Pitr.Operations.{Operation, OpStatement}

pub record ServerCheckpoint : Type 0 where
  pub last_stmt : ℤ
  pub total : ℤ
  pub errors_json : Text

-- The tables, each in the order of its rows, and the number of calls made.
pub record Db (G : Type 0) : Type 0 where
  pub operations : List (Operation G)
  pub statements : List (Text × OpStatement)
  pub checkpoints : List (Text × ServerCheckpoint)
  pub calls : ℕ

-- The answers of the database, the clock and the random source, by the number of the call.
pub record Sql : Type 0 where
  pub exec_err : ℕ → Option Text
  pub now : ℕ → Time
  pub new_id : ℕ → Text

-- `m <= n`.
abbrev int_leb : ℤ → ℤ → Bool
int_leb (pos m) (pos n) = leb m n
int_leb (pos m) (negsuc n) = false
int_leb (negsuc m) (pos n) = true
int_leb (negsuc m) (negsuc n) = leb n m

-- `ORDER BY stmt_index`.
abbrev pub insert_by_index : OpStatement → List OpStatement → List OpStatement
insert_by_index st [] = st ∷ []
insert_by_index st (x ∷ xs) =
    let rest = insert_by_index st xs in
    if int_leb st.stmt_index x.stmt_index then st ∷ x ∷ xs else x ∷ rest

abbrev pub by_index : List OpStatement → List OpStatement
by_index [] = []
by_index (st ∷ sts) = insert_by_index st (by_index sts)

abbrev no_operation : Text → Text
no_operation id = codes "operation not found: " ++ id

module _ {G : Type 0} where
  abbrev pub has_id : Text → Operation G → Bool
  has_id id r = text_eq r.id id

  -- The defaults of `Create`: an identifier, the times and the first state.
  abbrev pub with_defaults : Sql → ℕ → Operation G → Operation G
  with_defaults env n op =
      let created_at = if op.created_at == 0 then env.now n else op.created_at in
      record op {
        id = if is_empty op.id then env.new_id n else op.id;
        created_at = created_at;
        updated_at = if op.updated_at == 0 then created_at else op.updated_at;
        status = if is_empty (state_text op.status) then created else op.status;
      }

  abbrev row_of : Text → List (Operation G) → Result (Operation G)
  row_of id [] = err (no_operation id)
  row_of id (r ∷ rs) = if has_id id r then ok r else row_of id rs

  -- `UPDATE operations SET … WHERE id = ?`; the statements of a record are no column.
  abbrev pub set_all : Operation G → List (Operation G) → List (Operation G)
  set_all op [] = []
  set_all op (r ∷ rs) =
      (if has_id op.id r then record op { statements = r.statements } else r) ∷ set_all op rs

  -- `UPDATE operations SET selected_tx_ids = ?, target_tables = ?, updated_at = ? WHERE id = ?`.
  abbrev pub select_rows :
      Text → List Text → List TableRef → Time → List (Operation G) → List (Operation G)
  select_rows id tx_ids tables ts [] = []
  select_rows id tx_ids tables ts (r ∷ rs) =
      (if has_id id r
        then record r { selected_tx_ids = tx_ids; target_tables = tables; updated_at = ts }
        else r)
      ∷ select_rows id tx_ids tables ts rs

-- `DELETE FROM statements WHERE op_id = ?`.
abbrev pub drop_statements : Text → List (Text × OpStatement) → List (Text × OpStatement)
drop_statements id [] = []
drop_statements id (r ∷ rs) =
    let rest = drop_statements id rs in if text_eq r.0 id then rest else r ∷ rest

abbrev pub statements_of : Text → List (Text × OpStatement) → List OpStatement
statements_of id [] = []
statements_of id (r ∷ rs) =
    let rest = statements_of id rs in if text_eq r.0 id then r.1 ∷ rest else rest

-- The primary key of a new row is taken.
abbrev key_taken : Text → OpStatement → List (Text × OpStatement) → Bool
key_taken id st rows =
    any (λ (r : Text × OpStatement). text_eq r.0 id && int_eq r.1.stmt_index st.stmt_index) rows

-- The answer to an insert.
abbrev pub insert_err : Sql → ℕ → Bool → Option Text
insert_err env n taken = elim (env.exec_err n) [
  | some e ↦ some e
  | none ↦ if taken then some (codes "UNIQUE constraint failed") else none
]

-- The inserts of an open transaction, from call `n` on: the rows, or the error.
unfoldable pub insert_statements :
    Sql
    → ℕ
    → Text
    → List OpStatement
    → List (Text × OpStatement)
    → Result (List (Text × OpStatement))
insert_statements env n id [] rows = ok rows
insert_statements env n id (st ∷ sts) rows = elim (insert_err env n (key_taken id st rows)) [
  | some e ↦ err e
  | none ↦ insert_statements env (suc n) id sts (rows ++ (id, st) ∷ [])
]

-- Begin, delete and insert; the rows of the open transaction.
unfoldable pub replace_statements :
    Sql
    → ℕ
    → Text
    → List OpStatement
    → List (Text × OpStatement)
    → Result (List (Text × OpStatement))
replace_statements env n id stmts rows = elim (env.exec_err n) [
  | some e ↦ err e
  | none ↦ elim (env.exec_err (suc n)) [
    | some e ↦ err e
    | none ↦ insert_statements env (2 + n) id stmts (drop_statements id rows)
  ]
]

module _ {G : Type 0} (env : Sql) where
  unfoldable pub create : Operation G → Db G → Operation G × Option Text × Db G
  create op db =
      let op' = with_defaults env db.calls op in
      let db' : Db G = record db { calls = suc db.calls } in
      elim (insert_err env db.calls (any (has_id op'.id) db.operations)) [
        | some e ↦ (op', some e, db')
        | none ↦ (op', none, record db' { operations = db.operations ++ op' ∷ [] })
      ]

  unfoldable pub get : Text → Db G → Result (Operation G) × Db G
  get id db =
      let db' : Db G = record db { calls = suc db.calls } in
      elim (env.exec_err db.calls) [ some e ↦ (err e, db') | none ↦ (row_of id db.operations, db') ]

  unfoldable pub update : Operation G → Db G → Operation G × Option Text × Db G
  update op db =
      let op' : Operation G = record op {
        updated_at = if op.updated_at == 0 then env.now db.calls else op.updated_at;
      } in
      let db' : Db G = record db { calls = suc db.calls } in
      elim (env.exec_err db.calls) [
        | some e ↦ (op', some e, db')
        | none ↦ (
          op',
          (if any (has_id op'.id) db.operations then none else some (no_operation op'.id)),
          record db' { operations = set_all op' db.operations },
        )
      ]

  -- `list` by a column, in the order of the rows.
  abbrev pub list_where : (Operation G → Bool) → Db G → Result (List (Operation G)) × Db G
  list_where p db =
      let db' : Db G = record db { calls = suc db.calls } in
      elim (env.exec_err db.calls) [
        | some e ↦ (err e, db')
        | none ↦ (ok (keep p db.operations), db')
      ]

  unfoldable pub list_by_org : Text → Db G → Result (List (Operation G)) × Db G
  list_by_org org db = list_where (λ r. text_eq r.org_id org) db

  unfoldable pub list_by_agent : Text → Db G → Result (List (Operation G)) × Db G
  list_by_agent agent db = list_where (λ r. text_eq r.agent_id agent) db

  -- The calls that a transaction over the statements may make.
  abbrev after_calls : List OpStatement → Db G → Db G
  after_calls stmts db = record db { calls = db.calls + (length stmts + 4) }

  -- The commit is the call behind the inserts; an open transaction that ends in an error is
  -- rolled back.
  unfoldable pub save_statements : Text → List OpStatement → Db G → Option Text × Db G
  save_statements id stmts db =
      let db' = after_calls stmts db in
      elim (replace_statements env db.calls id stmts db.statements) [
        | err e ↦ (some e, db')
        | ok rows ↦ elim (env.exec_err (db.calls + (length stmts + 2))) [
          | some e ↦ (some e, db')
          | none ↦ (none, record db' { statements = rows })
        ]
      ]

  -- The update of the selection in the open transaction, then the commit.
  unfoldable pub save_statements_and_select :
      Text → List OpStatement → List Text → List TableRef → Db G → Option Text × Db G
  save_statements_and_select id stmts tx_ids tables db =
      let db' = after_calls stmts db in
      let n = db.calls + (length stmts + 2) in
      elim (replace_statements env db.calls id stmts db.statements) [
        | err e ↦ (some e, db')
        | ok rows ↦ elim (env.exec_err n) [
          | some e ↦ (some e, db')
          | none ↦ elim (any (has_id id) db.operations) [
            | false ↦ (some (no_operation id), db')
            | true ↦ elim (env.exec_err (suc n)) [
              | some e ↦ (some e, db')
              | none ↦ (
                none,
                record db' {
                  statements = rows;
                  operations = select_rows id tx_ids tables (env.now n) db.operations;
                },
              )
            ]
          ]
        ]
      ]

  unfoldable pub load_statements : Text → Db G → Result (List OpStatement) × Db G
  load_statements id db =
      let db' : Db G = record db { calls = suc db.calls } in
      elim (env.exec_err db.calls) [
        | some e ↦ (err e, db')
        | none ↦ (ok (by_index (statements_of id db.statements)), db')
      ]

  unfoldable pub save_checkpoint : Text → ServerCheckpoint → Db G → Option Text × Db G
  save_checkpoint id c db =
      let db' : Db G = record db { calls = suc db.calls } in
      if is_empty id
      then (some (codes "store: SaveCheckpoint: operation id required"), db)
      else elim (env.exec_err db.calls) [
        | some e ↦ (some (codes "store: save checkpoint " ++ (id ++ (codes ": " ++ e))), db')
        | none ↦ (none, record db' { checkpoints = insert id c db.checkpoints })
      ]

  unfoldable pub load_checkpoint : Text → Db G → Result (Option ServerCheckpoint) × Db G
  load_checkpoint id db =
      let db' : Db G = record db { calls = suc db.calls } in
      elim (env.exec_err db.calls) [
        | some e ↦ (err (codes "store: load checkpoint " ++ (id ++ (codes ": " ++ e))), db')
        | none ↦ (ok (lookup id db.checkpoints), db')
      ]
