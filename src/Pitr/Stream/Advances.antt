-- ===== src/Pitr/Stream/Advances.antt =====
-- The stored operations under the events that an agent pushes: HandleStreamEvent of
-- internal/server/pitr/handler.go.
use mysql_pitr.Base.{◌≡◌, refl, Bool, true, false, Option, none, some}
use mysql_pitr.Base.Text.{Text}
use mysql_pitr.Base.Int.{ℤ}
use mysql_pitr.Base.Result.{Result, ok, err}
use mysql_pitr.Pitr.State.{OperationState, ready, scanning, executing, failed, transition_valid}
use mysql_pitr.Pitr.Preview.{Preview}
use mysql_pitr.Pitr.Operations.{Operation, Server, update_if_status}
use mysql_pitr.Pitr.Operations.Moves.{update_if_status-Moved}
use mysql_pitr.Pitr.Events.{StreamEvent}
use mysql_pitr.Pitr.Calls.{Progress, OpDone, HandlerEnv, with_answer}
use mysql_pitr.Pitr.Calls.Guarantee.{Guarantees}
use mysql_pitr.Pitr.Calls.Advances.{Advances, OthersAdvance, Moved-Grown, advance_rules}
use mysql_pitr.Pitr.Stream.{
  StreamKind, ev_scan_done, ev_progress, ev_op_done, ev_op_error, forget_it, won, fell_back,
  updating, fallback, saving, persist_selected_statements, pausing, confirm_pause, save_progress,
  finish, scan_done, completed, op_done, handle_kind, handle_stream_event,
}

module _ {G : Type 0} (env : HandlerEnv G) where
  won-Advances : (r : Operation G × Result Bool) → Guarantees Advances (won env r)
  won-Advances (op, ok true) = search advance_rules
  won-Advances (op, ok false) = search advance_rules
  won-Advances (op, err e) = search advance_rules

  fell_back-Advances :
      (op : Operation G) (r : Result Bool) → Guarantees Advances (fell_back env op r)
  fell_back-Advances op (ok b) = search advance_rules
  fell_back-Advances op (err e) = search advance_rules

  update_if_status-Advances :
      (op : Operation G)
      → transition_valid ready op.status ≡ true
      → Guarantees Advances (with_answer {R = Unit} (update_if_status env.answers op ready))
  unfolding Guarantees with_answer Advances
  update_if_status-Advances op h s =
      Moved-Grown s.server.operations _ (update_if_status-Moved env.answers op ready s.server h)

  updating-Advances :
      (op : Operation G)
      → transition_valid ready op.status ≡ true
      → Guarantees Advances (updating env op)
  unfolding updating
  updating-Advances op h = search (advance_rules, update_if_status-Advances, fell_back-Advances)

  fallback-Advances :
      (op : Operation G) (to : OperationState)
      → transition_valid ready to ≡ true
      → Guarantees Advances (fallback env op to)
  unfolding fallback
  fallback-Advances op to h = search (advance_rules, updating-Advances)

  saving-Advances : (op : Operation G) (p : Option Preview) → Guarantees Advances (saving env op p)
  saving-Advances op none = search advance_rules
  saving-Advances op (some p) = search advance_rules

  persist_selected_statements-Advances :
      (op : Operation G) → Guarantees Advances (persist_selected_statements env op)
  unfolding persist_selected_statements
  persist_selected_statements-Advances op = search (advance_rules, saving-Advances)

  save_progress-Advances :
      (id : Text) (p : Option Progress) → Guarantees Advances (save_progress env id p)
  save_progress-Advances id none = search advance_rules
  save_progress-Advances id (some p) = search advance_rules

  pausing-Advances :
      (op : Operation G) (st : OperationState) → Guarantees Advances (pausing env op st)
  pausing-Advances op executing = search (advance_rules, won-Advances)
  pausing-Advances op _ = search advance_rules

  confirm_pause-Advances :
      (op : Operation G) (id : Text) (report : OpDone)
      → Guarantees Advances (confirm_pause env op id report)
  unfolding confirm_pause
  confirm_pause-Advances op id report = search (advance_rules, pausing-Advances)

  forget_it-operations : (id : Text) (s : Server G) → (forget_it id s).operations ≡ s.operations
  forget_it-operations id s = refl

  finish-Advances :
      (op : Operation G) (to : OperationState) (details : Text) (rows : ℤ) (ev : StreamEvent)
      → Guarantees Advances (finish env op to details rows ev)
  finish-Advances op to details rows ev = search (advance_rules, won-Advances) depth 9

  scan_done-Advances :
      (op : Operation G) (ev : StreamEvent) → Guarantees Advances (scan_done env op ev)
  unfolding scan_done transition_valid
  scan_done-Advances op ev =
      search
        (
          advance_rules,
          won-Advances,
          fallback-Advances op scanning refl,
          persist_selected_statements-Advances,
        )
        depth 9

  completed-Advances :
      (op : Operation G) (ev : StreamEvent) (report : OpDone)
      → Guarantees Advances (completed env op ev report)
  unfolding transition_valid
  completed-Advances op ev report =
      search (advance_rules, fallback-Advances op executing refl, finish-Advances)

  op_done-Advances : (op : Operation G) (ev : StreamEvent) → Guarantees Advances (op_done env op ev)
  unfolding op_done
  op_done-Advances op ev = search (advance_rules, confirm_pause-Advances, completed-Advances)

  handle_kind-Advances :
      (k : StreamKind) (op : Operation G) (ev : StreamEvent)
      → Guarantees Advances (handle_kind env k op ev)
  unfolding handle_kind
  handle_kind-Advances ev_scan_done op ev = scan_done-Advances op ev
  handle_kind-Advances ev_progress op ev = search (advance_rules, save_progress-Advances)
  handle_kind-Advances ev_op_done op ev = op_done-Advances op ev
  handle_kind-Advances ev_op_error op ev = finish-Advances op failed _ _ ev
  handle_kind-Advances _ op ev = search advance_rules

module _ {G : Type 0} (env : HandlerEnv G) (rely : OthersAdvance env) where
  -- Whatever an agent pushes, and whatever the rest of the server does in the meantime as long as it
  -- keeps to the same: no stored operation is lost, and each one moves along admitted transitions.
  pub handle_stream_event-Advances :
      (agent : Text) (ev : StreamEvent) → Guarantees Advances (handle_stream_event env agent ev)
  unfolding handle_stream_event
  handle_stream_event-Advances agent ev = search (advance_rules, handle_kind-Advances) depth 12
