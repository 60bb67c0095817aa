-- ===== src/Pitr/Stream.antt =====
-- The events that an agent pushes: HandleStreamEvent, confirmPause and persistSelectedStatements of
-- internal/server/pitr/handler.go. Log lines are not modelled.
pub mod Advances
pub mod Outcome
use mysql_pitr.Base.{
  ℕ, zero, suc, ◌+◌, ◌==◌, ◌&&◌, if◌then◌else◌, Bool, true, false, not, List, [], ◌∷◌, ◌++◌, Option,
  none, some, length,
}
use mysql_pitr.Base.Text.{Text, codes, text_eq, is_empty}
use mysql_pitr.Base.Int.{ℤ, pos, nat_text}
use mysql_pitr.Base.Result.{Result, ok, err}
use mysql_pitr.Base.Dict.{lookup, insert}
use mysql_pitr.Executor.Types.{ExecError}
use mysql_pitr.Pitr.State.{
  OperationState, ready, scanning, executing, paused, done, failed, created, blocked, cancelled,
  other, state_eq,
}
use mysql_pitr.Pitr.Preview.{
  Preview, TxMetaWire, StatementWire, preview_for, forget_preview, stage_tx_meta, stage_sql, sql_of,
}
use mysql_pitr.Pitr.Operations.{Operation, OpStatement, Server, update_if_status, append_audit}
use mysql_pitr.Pitr.Store.{ServerCheckpoint, get, save_statements, save_checkpoint}
use mysql_pitr.Pitr.Events.{EventBus, StreamEvent, publish}
use mysql_pitr.Pitr.Calls.{
  Json, Progress, OpDone, HandlerState, HandlerEnv, Handling, Answer, ◌>>=◌, stop, next, pure,
  end_with, require, value_of, value_at, asks, with_answer, with_server, with_bus, on_db, meanwhile,
  transition,
}

-- The kinds that the server tells apart.
pub data StreamKind : Type 0 where
  ev_tx_meta ev_sql ev_scan_done ev_progress ev_op_done ev_op_error ev_other : StreamKind

unfoldable pub kind_of : Text → StreamKind
kind_of k =
    if text_eq k (codes "tx_meta")
    then ev_tx_meta
    else if text_eq k (codes "sql")
    then ev_sql
    else if text_eq k (codes "scan_done")
    then ev_scan_done
    else if text_eq k (codes "progress")
    then ev_progress
    else if text_eq k (codes "op_done")
    then ev_op_done
    else if text_eq k (codes "op_error")
    then ev_op_error
    else ev_other

-- The place of a transaction in the preview, the last one if it stands there twice; 0 without it.
abbrev tx_index_from : ℕ → List TxMetaWire → Text → ℕ → ℕ
tx_index_from i [] id found = found
tx_index_from i (m ∷ ms) id found =
    tx_index_from (suc i) ms id (if text_eq m.tx_id id then i else found)

abbrev pub tx_index : Preview → Text → ℕ
tx_index p id = tx_index_from 0 p.metas id 0

-- The statements of one transaction, numbered from `i` on.
unfoldable pub wires_statements : ℕ → ℕ → List StatementWire → List OpStatement
wires_statements tx i [] = []
wires_statements tx i (w ∷ ws) =
    record {
      tx_index = pos tx;
      stmt_index = pos i;
      sql = w.sql;
      tx_id = w.tx_id;
      tx_order = w.tx_order;
      warnings = w.warnings;
      status = codes "pending";
    }
    ∷ wires_statements tx (suc i) ws

-- The statements of the transactions in the order of the request, numbered throughout.
unfoldable pub selected_statements : Preview → ℕ → List Text → List OpStatement
selected_statements p i [] = []
selected_statements p i (id ∷ ids) =
    wires_statements (tx_index p id) i (sql_of id p)
    ++ selected_statements p (i + length (sql_of id p)) ids

-- At most five statement errors, then an ellipsis.
abbrev summary_entries : ℕ → List ExecError → Text
summary_entries n [] = []
summary_entries zero (e ∷ es) = codes " ..."
summary_entries (suc n) (e ∷ es) =
    codes " #" ++ (nat_text e.statement ++ (codes " " ++ (e.err ++ summary_entries n es)))

abbrev max_error_summary_entries : ℕ
max_error_summary_entries = 5

unfoldable pub error_summary : List ExecError → Text
error_summary [] = []
error_summary (e ∷ es) =
    nat_text (length (e ∷ es))
    ++ (codes " statement(s) failed:" ++ summary_entries max_error_summary_entries (e ∷ es))

abbrev text_or : Text → Option Text → Text
text_or raw none = raw
text_or raw (some t) = t

unfoldable pub error_details_from_event : Json → Text → Text
error_details_from_event json raw = text_or raw (json.string raw)

module _ {G : Type 0} where
  abbrev pub with_preview : Text → (Preview → Preview) → Server G → Server G
  with_preview id f s = record s { previews = insert id (f (preview_for id s.previews)) s.previews }

  abbrev pub forget_it : Text → Server G → Server G
  forget_it id s = record s { previews = forget_preview id s.previews }

  -- `snapshot`.
  abbrev pub snapshot : Text → HandlerState G → Option Preview
  snapshot id s = lookup id s.server.previews

-- There is a selection.
abbrev pub is_some_id : List Text → Bool
is_some_id [] = false
is_some_id (id ∷ ids) = true

module _ {G : Type 0} (env : HandlerEnv G) where
  -- A program that is run to its end.
  abbrev pub run_handling : Handling G Unit Unit → HandlerState G → HandlerState G
  run_handling m s = (m s).1

  abbrev audit : Operation G → OperationState → Text → Text → ℤ → Handling G Unit Unit
  audit op st operator details rows =
      with_server (append_audit env.answers op st operator details rows)

  -- Go on if the update won.
  abbrev won : Operation G × Result Bool → Handling G Unit (Operation G)
  won (op, ok true) = pure op
  won (op, ok false) = end_with tt
  won (op, err e) = end_with tt

  -- The fallback for an event that overtakes the transition out of `ready`: the record counts as in
  -- the next state, whether or not the update won, unless it failed.
  abbrev fell_back : Operation G → Result Bool → Handling G Unit (Operation G)
  fell_back op (ok b) = pure op
  fell_back op (err e) = end_with tt

  unfoldable pub updating : Operation G → Handling G Unit (Operation G)
  updating op = with_answer (update_if_status env.answers op ready) >>= (λ r. fell_back op r)

  unfoldable pub fallback : Operation G → OperationState → Handling G Unit (Operation G)
  fallback op to =
      if state_eq op.status ready
      then asks (λ s. env.answers.now s.server.calls)
        >>= (λ now. updating (record op { status = to; updated_at = now }))
      else pure op

  -- Nothing is saved outside of the mode `selected`, without a selection, or without a preview.
  abbrev saving : Operation G → Option Preview → Handling G Unit (Option Text)
  saving op none = pure none
  saving op (some p) =
      on_db (save_statements env.sql op.id (selected_statements p 0 op.selected_tx_ids))

  unfoldable pub persist_selected_statements : Operation G → Handling G Unit (Option Text)
  persist_selected_statements op =
      if text_eq op.mode (codes "selected") && is_some_id op.selected_tx_ids
      then asks (snapshot op.id) >>= (λ p. saving op p)
      else pure none

  -- The pause counts where the operation is paused, or can be paused now.
  abbrev pausing : Operation G → OperationState → Handling G Unit (Operation G)
  pausing op paused = pure op
  pausing op executing = transition env op paused >>= won
  pausing op st = end_with tt

  unfoldable pub confirm_pause : Operation G → Text → OpDone → Handling G Unit Unit
  confirm_pause op id report = pausing op op.status >>= (λ op'.
      audit op' paused (codes "agent") [] report.rows_affected >>= (λ _. with_bus (
        publish id (record {
          id = id;
          kind = codes "op_paused";
          payload = env.json.paused_text op'.status report.done report.total;
        }))))

  abbrev checkpoint_of : Progress → ServerCheckpoint
  checkpoint_of p = record {
    last_stmt = p.done;
    total = p.total;
    errors_json = env.json.errors_text p.errors;
  }

  -- The checkpoint of a payload that can be decoded; an error of the store is ignored.
  abbrev save_progress : Text → Option Progress → Handling G Unit (Option Text)
  save_progress id none = pure none
  save_progress id (some p) = on_db (save_checkpoint env.sql id (checkpoint_of p))

  -- The transition of an event, what is written on it, and its publication.
  abbrev finish : Operation G → OperationState → Text → ℤ → StreamEvent → Handling G Unit Unit
  finish op to details rows ev = (transition env op to >>= won) >>= (λ op'.
      audit op' to (codes "agent") details rows
      >>= (λ _. with_server (forget_it ev.id) >>= (λ _. with_bus (publish ev.id ev))))

  unfoldable pub scan_done : Operation G → StreamEvent → Handling G Unit Unit
  scan_done op ev = fallback op scanning >>= (λ op1. (transition env op1 ready >>= won) >>= (λ op2.
      audit op2 ready (codes "agent") [] (pos 0)
      >>= (λ _. persist_selected_statements op2 >>= (λ _. with_bus (publish ev.id ev)))))

  abbrev completed : Operation G → StreamEvent → OpDone → Handling G Unit Unit
  completed op ev report =
      fallback op executing
      >>= (λ op'. finish op' done (error_summary report.errors) report.rows_affected ev)

  unfoldable pub op_done : Operation G → StreamEvent → Handling G Unit Unit
  op_done op ev =
      let (decoded, report) = env.json.op_done ev.payload in
      if decoded && report.paused then confirm_pause op ev.id report else completed op ev report

  unfoldable pub handle_kind : StreamKind → Operation G → StreamEvent → Handling G Unit Unit
  handle_kind ev_tx_meta op ev = value_at (env.json.tx_meta ev.payload) tt >>= (λ m.
      with_server (with_preview ev.id (stage_tx_meta m)) >>= (λ _. with_bus (publish ev.id ev)))
  handle_kind ev_sql op ev = value_at (env.json.statements ev.payload) tt >>= (λ ws.
      with_server (with_preview ev.id (stage_sql ws)) >>= (λ _. with_bus (publish ev.id ev)))
  handle_kind ev_scan_done op ev = scan_done op ev
  handle_kind ev_progress op ev =
      save_progress ev.id (env.json.progress ev.payload) >>= (λ _. with_bus (publish ev.id ev))
  handle_kind ev_op_done op ev = op_done op ev
  handle_kind ev_op_error op ev =
      finish op failed (error_details_from_event env.json ev.payload) (pos 0) ev
  handle_kind ev_other op ev = pure tt

  unfoldable pub handle_stream_event : Text → StreamEvent → Handling G Unit Unit
  handle_stream_event agent ev = require (not (is_empty ev.id)) tt >>= (λ _.
      require (not (is_empty ev.kind)) tt >>= (λ _. on_db (get env.sql ev.id) >>= (λ r.
        value_of r (λ e. tt) >>= (λ op.
          require (text_eq op.agent_id agent) tt
          >>= (λ _. meanwhile env >>= (λ _. handle_kind (kind_of ev.kind) op ev))))))
