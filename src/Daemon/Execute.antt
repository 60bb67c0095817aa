-- ===== src/Daemon/Execute.antt =====
-- How the agent runs the statements that the server sends: internal/daemon/execute.go. A run is the
-- executor's; the events are what its goroutine sends, in order.
pub mod Reports
use mysql_pitr.Base.{
  ℕ, if◌then◌else◌, Bool, true, false, ◌&&◌, ◌||◌, not, ◌==◌, List, [], ◌∷◌, ◌++◌, Option, none,
  some,
}
use mathlib.Core.Option
use mysql_pitr.Base.Text.{Text, codes, is_empty, text_eq}
use mysql_pitr.Base.Int.{ℤ, pos_part}
use mysql_pitr.Base.Result.{Result, ok, err}
use mysql_pitr.Binlog.Types.{RowChange, action_insert}
use mysql_pitr.Reverse.Types.{Statement}
use mysql_pitr.Executor.Types.{Plan, Progress, FinalReport, Event, reported, Env, World}
use mysql_pitr.Executor.Run.{Outcome, run, resume}
use mysql_pitr.Pitr.Preview.{StatementWire}
use mysql_pitr.Pitr.Events.{StreamEvent}

-- `ws.ExecuteRequest`.
pub record ExecuteRequest : Type 0 where
  pub operation_id : Text
  pub statements : List StatementWire
  pub batch_size : ℤ

-- `filepath.Base`, the verb %q, and `json.Marshal` of what is sent; `none` is an error.
pub record Encoders : Type 0 where
  pub path_base : Text → Text
  pub go_quote : Text → Text
  pub marshal_progress : Progress → Option Text
  pub marshal_report : FinalReport → Option Text
  pub marshal_error : Text → Option Text

-- `strings.Contains(s, "..")`.
abbrev has_dots : Text → Bool
has_dots [] = false
has_dots (c ∷ []) = false
has_dots (c ∷ d ∷ s) = (c == b'.' && d == b'.') || has_dots (d ∷ s)

-- The zero value of a row image.
abbrev no_row : RowChange
no_row = record {
  schema = [];
  table = [];
  action = action_insert;
  before = [];
  after = [];
  column_names = [];
}

-- The executor reads no `TxOrder`, of which `Statement` keeps the part from 0 on.
unfoldable pub plan_statements : List StatementWire → List Statement
plan_statements [] = []
plan_statements (st ∷ sts) =
    record {
      sql = st.sql;
      tx_id = st.tx_id;
      tx_order = pos_part st.tx_order;
      source_row = no_row;
      warnings = st.warnings;
    }
    ∷ plan_statements sts

unfoldable pub plan_from_execute_request : ExecuteRequest → Plan
plan_from_execute_request req = record {
  operation_id = req.operation_id;
  statements = plan_statements req.statements;
  dsn = codes "";
  batch_size = req.batch_size;
}

-- The event, if its payload could be encoded.
abbrev pub event_of : Text → Text → Option Text → List StreamEvent
event_of id kind none = []
event_of id kind (some payload) = record { id = id; kind = kind; payload = payload } ∷ []

module _ (enc : Encoders) where
  unfoldable pub validate_operation_id : Text → Option Text
  validate_operation_id op_id =
      if is_empty op_id
      then some (codes "daemon: operationID is required")
      else if not (text_eq (enc.path_base op_id) op_id)
      then some (
          codes "daemon: unsafe operationID "
          ++ (enc.go_quote op_id ++ codes ": must not contain path separators"))
      else if has_dots op_id
      then some (
          codes "daemon: unsafe operationID "
          ++ (enc.go_quote op_id ++ codes ": must not contain \"..\""))
      else none

  -- What the callback sends, by the calls of the run, of which the newest stands first.
  unfoldable pub progress_events : Text → List Event → List StreamEvent
  progress_events id [] = []
  progress_events id (reported p ∷ h) =
      progress_events id h ++ event_of id (codes "progress") (enc.marshal_progress p)
  progress_events id (_ ∷ h) = progress_events id h

  -- The event behind the run.
  unfoldable pub final_events : {S : Type 0} → Text → Outcome S → List StreamEvent
  final_events id o = elim o.error [
    | some e ↦ event_of id (codes "op_error") (enc.marshal_error e)
    | none ↦ event_of id (codes "op_done") (enc.marshal_report o.report)
  ]

  abbrev pub events_of : {S : Type 0} → Text → Outcome S → List StreamEvent
  events_of id o = progress_events id o.world.history ++ final_events id o

module _ (enc : Encoders) {S : Type 0} where
  -- The events of the goroutine; `none` would be a run that does not end. The executor may be nil.
  unfoldable pub run_execute :
      Option (Env S) → Text → ExecuteRequest → Bool → S → Result (Option (List StreamEvent))
  run_execute none id req is_resume s = err (codes "daemon: executor not configured")
  run_execute (some env) id req is_resume s =
      let plan = plan_from_execute_request req in
      let w : World S = record { history = []; store = s } in
      ok (
        Option.map (events_of enc id)
          (if is_resume then resume env plan true w else run env plan true w))

  unfoldable pub execute :
      Option (Env S) → Text → ExecuteRequest → S → Result (Option (List StreamEvent))
  execute env id req s = elim (validate_operation_id enc req.operation_id) [
    | some e ↦ err e
    | none ↦ run_execute env id req false s
  ]

  unfoldable pub resume_execute :
      Option (Env S) → Text → ExecuteRequest → S → Result (Option (List StreamEvent))
  resume_execute env id req s = elim (validate_operation_id enc req.operation_id) [
    | some e ↦ err e
    | none ↦ run_execute env id req true s
  ]
