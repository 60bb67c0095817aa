-- ===== src/Pitr/Operations.antt =====
-- Operation records and how the server moves them: internal/server/pitr/model.go, UpdateIfStatus
-- and ListByStatus of store.go, and transitionTo, failOperation, blockOperation,
-- HandleAgentDisconnect and ReconcileOnStartup of handler.go.
pub mod Moves
pub mod Rows
pub mod Actions
pub mod Reconcile
use mysql_pitr.Base.{
  ℕ, suc, ◌==◌, ◌&&◌, if◌then◌else◌, Bool, true, false, List, [], ◌∷◌, ◌++◌, Option, none, some,
  any, keep, map,
}
use mathlib.Core.Option
use mysql_pitr.Base.Text.{Text, codes, text_eq, contains, join}
use mysql_pitr.Base.Int.{ℤ, pos}
use mysql_pitr.Base.Result.{Result, ok, err}
use mysql_pitr.Binlog.Types.{Time, TableRef, Filter}
use mysql_pitr.Pitr.State.{
  OperationState, scanning, executing, failed, blocked, state_eq, state_text, try_transition_err,
}
use mysql_pitr.Pitr.Preview.{Preview, TxMetaWire, forget_preview}
use mysql_pitr.Scan.{contains_ref}

-- One statement of a selected transaction.
pub record OpStatement : Type 0 where
  pub tx_index : ℤ
  pub stmt_index : ℤ
  pub sql : Text
  pub tx_id : Text
  pub tx_order : ℤ
  pub warnings : List Text
  pub status : Text

pub record Operation (G : Type 0) : Type 0 where
  pub id : Text
  pub org_id : Text
  pub agent_id : Text
  pub op_type : Text
  pub mode : Text
  pub filter : Filter G
  pub status : OperationState
  pub created_by : Text
  pub created_at : Time
  pub updated_at : Time
  pub selected_tx_ids : List Text
  pub target_tables : List TableRef
  pub statements : List OpStatement

pub record AuditEntry : Type 0 where
  pub operation_id : Text
  pub operator : Text
  pub timestamp : Time
  pub org_id : Text
  pub agent_id : Text
  pub target_table : Text
  pub recovery_time : Time
  pub rows_affected : ℤ
  pub status : Text
  pub error_details : Text

-- The table of the operations in the order of their rows, the audit log, the previews, and the
-- number of calls made of the database, the log and the clock.
pub record Server (G : Type 0) : Type 0 where
  pub operations : List (Operation G)
  pub audits : List AuditEntry
  pub previews : List (Text × Preview)
  pub calls : ℕ

-- Their answers, by the number of the call. `none` is a nil error.
pub record Answers : Type 0 where
  pub now : ℕ → Time
  pub update_err : ℕ → Option Text
  pub list_err : ℕ → Option Text
  pub audit_err : ℕ → Option Text

-- `schema.table` entries joined with commas.
abbrev ref_texts : List TableRef → List Text
ref_texts [] = []
ref_texts (t ∷ ts) = (t.schema ++ (codes "." ++ t.table)) ∷ ref_texts ts

unfoldable pub join_table_refs : List TableRef → Text
join_table_refs tables = join (codes ", ") (ref_texts tables)

-- The tables of one transaction's metadata that were not seen before.
abbrev add_refs : List TableRef → List TableRef → List TableRef
add_refs out [] = out
add_refs out (t ∷ ts) = add_refs (if contains_ref out t then out else out ++ t ∷ []) ts

abbrev selected_refs : List Text → List TableRef → List TxMetaWire → List TableRef
selected_refs tx_ids out [] = out
selected_refs tx_ids out (m ∷ ms) =
    selected_refs tx_ids (if contains tx_ids m.tx_id then add_refs out m.tables else out) ms

unfoldable pub tables_of_selected : List TxMetaWire → List Text → List TableRef
tables_of_selected metas tx_ids = selected_refs tx_ids [] metas

-- The bytes of an em dash.
abbrev em_dash : Text
em_dash = 226 ∷ 128 ∷ 148 ∷ []

abbrev restarted : Text
restarted =
    codes "server restart "
    ++ (em_dash ++ codes " operation blocked; retry after the agent reconnects")

module _ {G : Type 0} where
  -- The row of an operation, while its status is still the given one.
  abbrev pub is_row : Text → OperationState → Operation G → Bool
  is_row id from r = text_eq r.id id && state_eq r.status from

  -- `UPDATE operations SET status = ?, updated_at = ? WHERE id = ? AND status = ?` on one row.
  abbrev pub set_row : Text → OperationState → OperationState → Time → Operation G → Operation G
  set_row id from to ts r =
      if is_row id from r then record r { status = to; updated_at = ts } else r

  abbrev pub set_rows :
      Text → OperationState → OperationState → Time → List (Operation G) → List (Operation G)
  set_rows id from to ts [] = []
  set_rows id from to ts (r ∷ rs) = set_row id from to ts r ∷ set_rows id from to ts rs

  -- The constraint on the tables, or what the selection touches.
  abbrev audited_tables : Operation G → List TableRef
  audited_tables op = elim op.target_tables [ [] ↦ op.filter.tables | t ∷ ts ↦ t ∷ ts ]

  abbrev recovery_time_of : Operation G → Time
  recovery_time_of op = elim op.filter.time_range [ none ↦ 0 | some r ↦ r.end ]

module _ {G : Type 0} (env : Answers) where
  -- Whether a row was updated. A zero `updated_at` is set to the clock's time.
  unfoldable pub update_if_status : Operation G → OperationState → Server G → Result Bool × Server G
  update_if_status op from s =
      let ts = if op.updated_at == 0 then env.now s.calls else op.updated_at in
      elim (env.update_err s.calls) [
        | some e ↦ (err e, record s { calls = suc s.calls })
        | none ↦ (
          ok (any (is_row op.id from) s.operations),
          record s {
            operations = set_rows op.id from op.status ts s.operations;
            calls = suc s.calls;
          },
        )
      ]

  -- The record behind an update, and its result: the status is taken back unless the update won.
  abbrev pub settled :
      Operation G → OperationState → Result Bool × Server G → Operation G × Result Bool × Server G
  settled op from (ok true, s) = (op, ok true, s)
  settled op from (ok false, s) = (record op { status = from }, ok false, s)
  settled op from (err e, s) = (record op { status = from }, err e, s)

  unfoldable pub transition_to :
      Operation G → OperationState → Server G → Operation G × Result Bool × Server G
  transition_to op to s = elim (try_transition_err op.status to) [
    | some e ↦ (op, err e, s)
    | none ↦
        let op' = record op { status = to; updated_at = env.now s.calls } in
        settled op' op.status (update_if_status op' op.status s)
  ]

  -- An error of the audit log is ignored.
  unfoldable pub append_audit : Operation G → OperationState → Text → Text → ℤ → Server G → Server G
  append_audit op state operator details rows s =
      let entry : AuditEntry = record {
        operation_id = op.id;
        operator = operator;
        timestamp = env.now s.calls;
        org_id = op.org_id;
        agent_id = op.agent_id;
        target_table = join_table_refs (audited_tables op);
        recovery_time = recovery_time_of op;
        rows_affected = rows;
        status = state_text state;
        error_details = details;
      } in
      elim (env.audit_err s.calls) [
        | some e ↦ record s { calls = suc s.calls }
        | none ↦ record s { audits = s.audits ++ entry ∷ []; calls = suc s.calls }
      ]

  abbrev forget : Text → Server G → Server G
  forget id s = record s { previews = forget_preview id s.previews }

  -- What follows a transition to `failed`.
  abbrev after_fail : Text → Operation G × Result Bool × Server G → Server G
  after_fail details (op, err e, s) = s
  after_fail details (op, ok false, s) = forget op.id s
  after_fail details (op, ok true, s) =
      forget op.id (append_audit op failed (codes "agent") details (pos 0) s)

  pub fail_operation : Operation G → Text → Server G → Server G
  fail_operation op details s = after_fail details (transition_to op failed s)

  -- What follows a transition to `blocked`.
  abbrev after_block : Text → Operation G × Result Bool × Server G → Server G
  after_block details (op, err e, s) = s
  after_block details (op, ok false, s) = s
  after_block details (op, ok true, s) =
      forget op.id (append_audit op blocked (codes "system") details (pos 0) s)

  pub block_operation : Operation G → Text → Server G → Server G
  block_operation op details s = after_block details (transition_to op blocked s)

  pub list_by_status : OperationState → Server G → Result (List (Operation G)) × Server G
  list_by_status st s = elim (env.list_err s.calls) [
    | some e ↦ (err e, record s { calls = suc s.calls })
    | none ↦ (
      ok (keep (λ (r : Operation G). state_eq r.status st) s.operations),
      record s { calls = suc s.calls },
    )
  ]

  pub block_all : List (Operation G) → Text → Server G → Server G
  block_all [] details s = s
  block_all (op ∷ ops) details s = block_all ops details (block_operation op details s)

  abbrev agents_ops : Text → List (Operation G) → List (Operation G)
  agents_ops agent = keep (λ (r : Operation G). text_eq r.agent_id agent)

  -- A list that cannot be read is passed over.
  abbrev disconnect_listed : Text → Result (List (Operation G)) × Server G → Server G
  disconnect_listed agent (err e, s) = s
  disconnect_listed agent (ok ops, s) =
      block_all (agents_ops agent ops) (codes "agent disconnected") s

  pub handle_agent_disconnect : Text → Server G → Server G
  handle_agent_disconnect agent s =
      let s' = disconnect_listed agent (list_by_status scanning s) in
      disconnect_listed agent (list_by_status executing s')

  -- A list that cannot be read ends the reconciliation with an error.
  abbrev reconcile_listed :
      OperationState → Result (List (Operation G)) × Server G → Option Text × Server G
  reconcile_listed st (err e, s) = (
    some
        (codes "pitr: startup reconcile: list " ++ (state_text st ++ (codes " operations: " ++ e))),
    s,
  )
  reconcile_listed st (ok ops, s) = (none, block_all ops restarted s)

  abbrev reconcile_status : OperationState → Server G → Option Text × Server G
  reconcile_status st s = reconcile_listed st (list_by_status st s)

  abbrev reconcile_next : Option Text × Server G → Option Text × Server G
  reconcile_next (some e, s) = (some e, s)
  reconcile_next (none, s) = reconcile_status executing s

  pub reconcile_on_startup : Server G → Option Text × Server G
  reconcile_on_startup s = reconcile_next (reconcile_status scanning s)
