-- ===== src/Pitr/Requests/Advances.antt =====
-- The stored operations under the requests of internal/server/pitr/handler.go.
pub mod Start
pub mod Views
use mysql_pitr.Base.{
  ℕ, ◌≡◌, refl, Bool, true, false, List, [], ◌∷◌, Option, none, some, inl, inr, Option-cases,
}
use mysql_pitr.Base.Text.{Text, text_eq}
use mysql_pitr.Base.Int.{ℤ}
use mysql_pitr.Base.Result.{Result, ok, err}
use mysql_pitr.Pitr.Operations.{Operation, Server, OpStatement}
use mysql_pitr.Pitr.Store.{Db, Sql, load_checkpoint, list_by_org, list_where}
use mysql_pitr.Pitr.Events.{EventBus, StreamEvent}
use mysql_pitr.Pitr.Calls.{
  ScanFilter, AgentCommand, AgentResponse, accepted, rejected, HandlerEnv, on_bus, with_answer,
}
use mysql_pitr.Pitr.Calls.Guarantee.{Guarantees}
use mysql_pitr.Pitr.Calls.Advances.{
  Advances, OthersAdvance, advance_rules, same_operations-Advances,
}
use mysql_pitr.Pitr.Filters.{Formats}
use mysql_pitr.Pitr.Requests.{
  Request, Reply, Handler, ask, or_refused, none_or_refused, won_or_refused, is_member,
  authorize_op, fail_with, status, transactions_of, views, list,
}
use mysql_pitr.Pitr.Requests.Run.{
  some_statements, execute_answer, issue_statements, send_execute, body_or_refused, execute_op,
  resume_op, pause_answer, pause_op, cancel_op,
}
use mysql_pitr.Pitr.Requests.Start.{
  StartRequest, block_offline, scan_answer, launch, start_for, start,
}
use mysql_pitr.Pitr.Requests.Sse.{
  Turn, receives, ticks, gone, synthetic_terminal_event, polled, received, ended, sse_loop, events,
}

module _ (G : Type 0) where
  with_answer-Advances :
      (R : Type 0) {A : Type 0} (f : Server G → A × Server G)
      → ((s : Server G) → (f s).1.operations ≡ s.operations)
      → Guarantees Advances (with_answer {R = R} f)
  unfolding Guarantees with_answer
  with_answer-Advances R f h s = same_operations-Advances s _ (h s.server)

  pub ask-Advances : {A : Type 0} (f : ℕ → A) → Guarantees Advances (ask {G = G} f)
  ask-Advances f = with_answer-Advances (Reply G) _ (λ s. refl)

  pub on_bus-Advances :
      (R : Type 0) {A : Type 0} (f : EventBus → A × EventBus)
      → Guarantees Advances (on_bus {G = G} {R = R} f)
  unfolding Guarantees on_bus
  on_bus-Advances R f s = same_operations-Advances s _ refl

  pub or_refused-Advances :
      {A : Type 0} (code : ℕ) (r : Result A) → Guarantees Advances (or_refused {G = G} code r)
  or_refused-Advances code (ok a) = search advance_rules
  or_refused-Advances code (err e) = search advance_rules

  pub none_or_refused-Advances :
      (code : ℕ) (r : Option Text) → Guarantees Advances (none_or_refused {G = G} code r)
  none_or_refused-Advances code none = search advance_rules
  none_or_refused-Advances code (some e) = search advance_rules

module _ {G : Type 0} where
  pub won_or_refused-Advances :
      (code : ℕ) (r : Operation G × Result Bool) → Guarantees Advances (won_or_refused code r)
  won_or_refused-Advances code (op, ok true) = search advance_rules
  won_or_refused-Advances code (op, ok false) = search advance_rules
  won_or_refused-Advances code (op, err e) = search advance_rules

pub ruleset request_rules = (
  advance_rules, ask-Advances, on_bus-Advances, or_refused-Advances, none_or_refused-Advances,
  won_or_refused-Advances,
)

module _ {G : Type 0} (env : HandlerEnv G) (rely : OthersAdvance env) where
  pub is_member-Advances :
      (org user message : Text) → Guarantees Advances (is_member env org user message)
  is_member-Advances org user message = search request_rules

  pub authorize_op-Advances : (req : Request) → Guarantees Advances (authorize_op env req)
  unfolding authorize_op
  authorize_op-Advances req = search (request_rules, is_member-Advances) depth 12

  pub fail_with-Advances :
      (A : Type 0) (op : Operation G) (details message : Text)
      → Guarantees Advances (fail_with env {A = A} op details message)
  fail_with-Advances A op details message = search request_rules

  some_statements-Advances :
      (sts : List OpStatement) → Guarantees Advances (some_statements env sts)
  some_statements-Advances [] = search request_rules
  some_statements-Advances (st ∷ sts) = search request_rules

  execute_answer-Advances :
      (op : Operation G) (r : Result AgentResponse) → Guarantees Advances (execute_answer env op r)
  execute_answer-Advances op (err e) = fail_with-Advances Unit op e _
  execute_answer-Advances op (ok (rejected e)) = fail_with-Advances Unit op e _
  execute_answer-Advances op (ok accepted) = search request_rules

  pause_answer-Advances :
      (op : Operation G) (r : Result AgentResponse) → Guarantees Advances (pause_answer env op r)
  pause_answer-Advances op (err e) = search request_rules
  pause_answer-Advances op (ok (rejected e)) = fail_with-Advances Unit op e _
  pause_answer-Advances op (ok accepted) = search request_rules

  issue_statements-Advances :
      (op : Operation G) (command : List OpStatement → AgentCommand) (r : Result (List OpStatement))
      → Guarantees Advances (issue_statements env op command r)
  unfolding issue_statements
  issue_statements-Advances op command r =
      search (request_rules, some_statements-Advances, execute_answer-Advances) depth 12

  send_execute-Advances :
      (op : Operation G) (command : List OpStatement → AgentCommand)
      → Guarantees Advances (send_execute env op command)
  unfolding send_execute
  send_execute-Advances op command = search (request_rules, issue_statements-Advances)

  body_or_refused-Advances : (b : Option ℤ) → Guarantees Advances (body_or_refused env b)
  body_or_refused-Advances none = search request_rules
  body_or_refused-Advances (some n) = search request_rules

  pub execute_op-Advances :
      (req : Request) (b : Option ℤ) → Guarantees Advances (execute_op env req b)
  unfolding execute_op
  execute_op-Advances req b =
      search (request_rules, authorize_op-Advances, body_or_refused-Advances, send_execute-Advances)
        depth 9

  pub resume_op-Advances : (req : Request) → Guarantees Advances (resume_op env req)
  unfolding resume_op
  resume_op-Advances req = search (request_rules, authorize_op-Advances, send_execute-Advances)

  pub pause_op-Advances : (req : Request) → Guarantees Advances (pause_op env req)
  unfolding pause_op
  pause_op-Advances req =
      search (request_rules, authorize_op-Advances, pause_answer-Advances) depth 12

  pub cancel_op-Advances : (req : Request) → Guarantees Advances (cancel_op env req)
  unfolding cancel_op
  cancel_op-Advances req = search (request_rules, authorize_op-Advances) depth 12
