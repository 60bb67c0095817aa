-- ===== src/Pitr/Requests/Sent.antt =====
-- The commands that sendExecute of internal/server/pitr/handler.go sends.
use mysql_pitr.Base.{
  ℕ, suc, ◌≡◌, refl, sym, ◌∙◌, Bool, true, false, List, [], ◌∷◌, ◌++◌, append-nil,
}
use mysql_pitr.Base.Text.{Text}
use mysql_pitr.Base.Result.{Result, ok, err}
use mysql_pitr.Pitr.State.{OperationState}
use mysql_pitr.Pitr.Operations.{Operation, OpStatement, Server}
use mysql_pitr.Pitr.Store.{load_statements}
use mysql_pitr.Pitr.Calls.{
  AgentCommand, AgentResponse, accepted, rejected, HandlerState, HandlerEnv, ◌>>=◌, on_db,
  with_server, transition, send_command, issued, pure, end_with, db_of, put_db,
}
use mysql_pitr.Pitr.Calls.Guarantee.{IsPreorder, Guarantees, guarantee_rules}
use mysql_pitr.Pitr.Requests.{Handler, won_or_refused}
use mysql_pitr.Pitr.Requests.Run.{execute_answer, issue_statements, send_execute}

module _ {G : Type 0} where
  unfoldable pub SameSent : HandlerState G → HandlerState G → Type 0
  SameSent s s' = s'.sent ≡ s.sent

  SameSent-IsPreorder : IsPreorder SameSent
  unfolding SameSent
  SameSent-IsPreorder = record { reflexive = λ s. refl; transitive = λ r s t h k. k ∙ h }

  -- The rest of the server sends nothing in the meantime.
  pub record OthersAreSilent (env : HandlerEnv G) : Type 0 where
    pub silent : (n : ℕ) (s : HandlerState G) → (env.others n s).sent ≡ s.sent

module _ {G : Type 0} (R : Type 0) where
  with_server-SameSent : (f : Server G → Server G) → Guarantees SameSent (with_server {R = R} f)
  unfolding Guarantees SameSent with_server
  with_server-SameSent f s = refl

  transition-SameSent :
      (env : HandlerEnv G) (op : Operation G) (to : OperationState)
      → Guarantees SameSent (transition {R = R} env op to)
  unfolding Guarantees SameSent transition
  transition-SameSent env op to s = refl

module _ {G : Type 0} where
  won_or_refused-SameSent :
      (code : ℕ) (r : Operation G × Result Bool) → Guarantees SameSent (won_or_refused code r)
  won_or_refused-SameSent code (op, ok true) = search (guarantee_rules, SameSent-IsPreorder)
  won_or_refused-SameSent code (op, ok false) = search (guarantee_rules, SameSent-IsPreorder)
  won_or_refused-SameSent code (op, err e) = search (guarantee_rules, SameSent-IsPreorder)

ruleset sent_rules = (
  guarantee_rules, SameSent-IsPreorder, with_server-SameSent, transition-SameSent,
  won_or_refused-SameSent,
)

module _ {G : Type 0} (env : HandlerEnv G) where
  execute_answer-SameSent :
      (op : Operation G) (r : Result AgentResponse) → Guarantees SameSent (execute_answer env op r)
  execute_answer-SameSent op (err e) = search sent_rules
  execute_answer-SameSent op (ok (rejected e)) = search sent_rules
  execute_answer-SameSent op (ok accepted) = search sent_rules

  -- One command, then programs that send none.
  send_command-sent :
      {A : Type 0} (agent : Text) (cmd : AgentCommand) (k : Result AgentResponse → Handler G A)
      (s : HandlerState G)
      → OthersAreSilent env
      → ((r : Result AgentResponse) → Guarantees SameSent (k r))
      → ((send_command env agent cmd >>= k) s).1.sent ≡ s.sent ++ (agent, cmd) ∷ []
  unfolding Guarantees SameSent ◌>>=◌ send_command
  send_command-sent agent cmd k s quiet h =
      h (env.reply s.server.calls agent cmd) (env.others (suc s.server.calls) (issued agent cmd s))
      ∙ quiet.silent (suc s.server.calls) (issued agent cmd s)

  -- The commands for what was loaded.
  abbrev pub commands_for :
      Operation G
      → (List OpStatement → AgentCommand)
      → Result (List OpStatement)
      → List (Text × AgentCommand)
  commands_for op command (err e) = []
  commands_for op command (ok []) = []
  commands_for op command (ok (st ∷ sts)) = (op.agent_id, command (st ∷ sts)) ∷ []

  issue_statements-sent :
      (op : Operation G) (command : List OpStatement → AgentCommand) (r : Result (List OpStatement))
      (s : HandlerState G)
      → OthersAreSilent env
      → (issue_statements env op command r s).1.sent ≡ s.sent ++ commands_for op command r
  unfolding issue_statements ◌>>=◌ pure end_with
  issue_statements-sent op command (err e) s quiet = sym (append-nil s.sent)
  issue_statements-sent op command (ok []) s quiet = sym (append-nil s.sent)
  issue_statements-sent op command (ok (st ∷ sts)) s quiet =
      send_command-sent op.agent_id (command (st ∷ sts)) _ s quiet
        (λ r. search (sent_rules, execute_answer-SameSent) depth 9)

  -- Unless others send in the meantime: sendExecute sends one command, to the operation's agent, made
  -- of exactly the statements that the store has for the operation, in their order; none if there are
  -- no statements or they cannot be read.
  pub send_execute-sent :
      (op : Operation G) (command : List OpStatement → AgentCommand) (s : HandlerState G)
      → OthersAreSilent env
      → (send_execute env op command s).1.sent
        ≡ s.sent ++ commands_for op command (load_statements env.sql op.id (db_of s)).0
  unfolding send_execute ◌>>=◌ on_db
  send_execute-sent op command s quiet =
      let (r, db) = load_statements env.sql op.id (db_of s) in
      issue_statements-sent op command r (put_db db s) quiet
