-- ===== src/Pitr/Requests/Run.antt =====
-- The requests that drive an execution: Execute, Resume, sendExecute, Pause and Cancel of
-- internal/server/pitr/handler.go.
use mysql_pitr.Base.{List, [], ◌∷◌, ◌++◌, Option, none, some, length}
use mysql_pitr.Base.Text.{Text, codes}
use mysql_pitr.Base.Int.{ℤ, pos}
use mysql_pitr.Base.Result.{Result, ok, err}
use mysql_pitr.Pitr.State.{
  ready, executing, paused, cancelled, state_eq, state_text, transition_valid,
}
use mysql_pitr.Pitr.Operations.{Operation, OpStatement, append_audit}
use mysql_pitr.Pitr.Store.{load_statements}
use mysql_pitr.Pitr.Calls.{
  AgentCommand, execute, resume, cancel, AgentResponse, accepted, rejected, HandlerEnv, ◌>>=◌, pure,
  end_with, require, with_server, on_db, transition, send_command,
}
use mysql_pitr.Pitr.Stream.{forget_it}
use mysql_pitr.Pitr.Filters.{statements_to_wire}
use mysql_pitr.Pitr.Requests.{
  Request, Reply, refused, replied, Handler, sent_statements, moved, or_refused, won_or_refused,
  authorize_op, fail_with,
}

-- The bytes of "no selected statements to execute — select transactions first".
abbrev nothing_selected : Text
nothing_selected =
    codes "no selected statements to execute "
    ++ (226 ∷ 128 ∷ 148 ∷ codes " select transactions first")

module _ {G : Type 0} (env : HandlerEnv G) where
  -- A refusal that names the current state.
  abbrev pub state_refusal : Text → Operation G → Text → Reply G
  state_refusal before op behind =
      refused 409 (before ++ (env.json.go_quote (state_text op.status) ++ behind))

  abbrev pub some_statements : List OpStatement → Handler G Unit
  some_statements [] = end_with (refused 409 nothing_selected)
  some_statements (st ∷ sts) = pure tt

  -- The agent's answer; otherwise the operation fails.
  abbrev pub execute_answer : Operation G → Result AgentResponse → Handler G Unit
  execute_answer op (err e) = fail_with env op e (codes "send execute: " ++ e)
  execute_answer op (ok (rejected e)) = fail_with env op e (codes "agent rejected execute: " ++ e)
  execute_answer op (ok accepted) = pure tt

  -- From the loaded statements on; the command is made of them.
  unfoldable pub issue_statements :
      Operation G → (List OpStatement → AgentCommand) → Result (List OpStatement) → Handler G Unit
  issue_statements op command r = or_refused 500 r >>= (λ stmts. some_statements stmts >>= (λ _.
      send_command env op.agent_id (command stmts) >>= (λ answer. execute_answer op answer >>= (λ _.
        (transition env op executing >>= won_or_refused 409)
        >>= (λ op'. end_with (replied 200 (sent_statements op'.id op'.status (length stmts))))))))

  -- `sendExecute`.
  unfoldable pub send_execute : Operation G → (List OpStatement → AgentCommand) → Handler G Unit
  send_execute op command =
      on_db (load_statements env.sql op.id) >>= (λ r. issue_statements op command r)

  -- The batch size of the body; an absent body counts as 0, one that cannot be decoded is `none`.
  abbrev pub body_or_refused : Option ℤ → Handler G ℤ
  body_or_refused none = end_with (refused 400 (codes "invalid request body"))
  body_or_refused (some n) = pure n

  unfoldable pub execute_op : Request → Option ℤ → Handler G Unit
  execute_op req body = authorize_op env req >>= (λ op.
      require (state_eq op.status ready) (
        state_refusal (codes "operation must be in state \"ready\" to execute (current state ") op
          (codes ")"))
      >>= (λ _.
          body_or_refused body
          >>= (λ n. send_execute op (λ stmts. execute op.id (statements_to_wire stmts) n))))

  unfoldable pub resume_op : Request → Handler G Unit
  resume_op req = authorize_op env req >>= (λ op.
      require (state_eq op.status paused) (
        state_refusal (codes "only paused operations can be resumed (current state ") op
          (codes ")"))
      >>= (λ _. send_execute op (λ stmts. resume op.id (statements_to_wire stmts) (pos 0))))

  -- A command that did not reach the agent leaves the operation as it is.
  abbrev pub pause_answer : Operation G → Result AgentResponse → Handler G Unit
  pause_answer op (err e) = end_with (refused 502 (codes "send pause: " ++ e))
  pause_answer op (ok (rejected e)) = fail_with env op e (codes "agent rejected pause: " ++ e)
  pause_answer op (ok accepted) = pure tt

  unfoldable pub pause_op : Request → Handler G Unit
  pause_op req = authorize_op env req >>= (λ op.
      require (state_eq op.status executing) (
        state_refusal (codes "only executing operations can be paused (current state ") op
          (codes ")"))
      >>= (λ _. send_command env op.agent_id (cancel op.id) >>= (λ answer.
          pause_answer op answer >>= (λ _.
            (transition env op paused >>= won_or_refused 409)
            >>= (λ op'. end_with (replied 200 (moved op'.id op'.status)))))))

  unfoldable pub cancel_op : Request → Handler G Unit
  cancel_op req = authorize_op env req >>= (λ op.
      require (transition_valid op.status cancelled)
        (state_refusal (codes "cannot cancel operation in state ") op [])
      >>= (λ _. send_command env op.agent_id (cancel op.id) >>= (λ answer.
          (transition env op cancelled >>= won_or_refused 500) >>= (λ op'.
            with_server (forget_it op'.id) >>= (λ _.
              with_server (append_audit env.answers op' cancelled req.email [] (pos 0))
              >>= (λ _. end_with (replied 200 (moved op'.id op'.status))))))))
