-- ===== src/Pitr/Calls.antt =====
-- What the handlers of internal/server/pitr/handler.go work on: the state of `Handler` with the
-- store behind it, the calls of the other components, and programs that end early with a reply.
pub mod Guarantee
pub mod Advances
use mysql_pitr.Base.{ℕ, suc, Bool, true, false, List, [], ◌∷◌, ◌++◌, Option, none, some}
use mysql_pitr.Base.Text.{Text}
use mysql_pitr.Base.Int.{ℤ}
use mysql_pitr.Base.Result.{Result, ok, err}
use mysql_pitr.Binlog.Types.{Time, TableRef}
use mysql_pitr.Executor.Types.{ExecError}
use mysql_pitr.Pitr.State.{OperationState}
use mysql_pitr.Pitr.Preview.{Preview, TxMetaWire, StatementWire}
use mysql_pitr.Pitr.Operations.{Operation, OpStatement, Server, Answers, transition_to}
use mysql_pitr.Pitr.Store.{Db, Sql, ServerCheckpoint}
use mysql_pitr.Pitr.Events.{EventBus, StreamEvent}

-- `ws.ScanFilter`.
pub record ScanFilter : Type 0 where
  pub tables : List TableRef
  pub time_start : Text
  pub time_end : Text
  pub gtid_set : Text
  pub start_file : Text
  pub start_pos : ℕ
  pub end_file : Text
  pub end_pos : ℕ
  pub max_rows_per_tx : ℤ
  pub selected_tx_ids : List Text

-- `ws.ScanRequest`.
pub record ScanRequest : Type 0 where
  pub filter : ScanFilter
  pub mode : Text
  pub max_preview : ℤ

-- The commands that the server sends: scan, execute, resume and cancel.
pub data AgentCommand : Type 0 where
  scan : Text → ScanRequest → AgentCommand
  execute resume : Text → List StatementWire → ℤ → AgentCommand
  cancel : Text → AgentCommand

-- The agent's response: ok, or an error with its text.
pub data AgentResponse : Type 0 where
  accepted : AgentResponse
  rejected : Text → AgentResponse

pub record Progress : Type 0 where
  pub done : ℤ
  pub total : ℤ
  pub errors : List ExecError

-- `opDonePayload`.
pub record OpDone : Type 0 where
  pub done : ℤ
  pub total : ℤ
  pub rows_affected : ℤ
  pub paused : Bool
  pub errors : List ExecError

-- The JSON of events and of error lists; `none` is a payload that cannot be decoded.
pub record Json : Type 0 where
  pub tx_meta : Text → Option TxMetaWire
  pub statements : Text → Option (List StatementWire)
  pub progress : Text → Option Progress
  -- Whether the payload was decoded without an error, and the fields that were.
  pub op_done : Text → Bool × OpDone
  pub string : Text → Option Text
  pub errors_text : List ExecError → Text
  pub paused_text : OperationState → ℤ → ℤ → Text
  pub terminal_text : OperationState → Option (ℤ × ℤ) → Text
  -- The verb %q.
  pub go_quote : Text → Text

pub record AgentRow : Type 0 where
  pub org_id : Text
  pub approved : Bool

pub record HandlerState (G : Type 0) : Type 0 where
  pub server : Server G
  pub statements : List (Text × OpStatement)
  pub checkpoints : List (Text × ServerCheckpoint)
  pub bus : EventBus
  -- The commands sent, with their agents, the first one first.
  pub sent : List (Text × AgentCommand)

-- The other components, by the number of the call: the database, the agents behind the hub, the
-- stores of agents and organisations, and what the rest of the server does to the state while a
-- handler waits.
pub record HandlerEnv (G : Type 0) : Type 0 where
  pub answers : Answers
  pub sql : Sql
  pub json : Json
  pub others : ℕ → HandlerState G → HandlerState G
  pub reply : ℕ → Text → AgentCommand → Result AgentResponse
  pub is_connected : ℕ → Text → Bool
  pub members : ℕ → Text → Option (List Text)
  pub agent : ℕ → Text → Option AgentRow

-- A program ends early with an `R`, or goes on with an `A`.
pub data Answer (R A : Type 0) : Type 0 where
  stop : R → Answer R A
  next : A → Answer R A

abbrev pub Handling : Type 0 → Type 0 → Type 0 → Type 0
Handling G R A = HandlerState G → Answer R A × HandlerState G

module _ {G R A B : Type 0} where
  abbrev pub after :
      (A → Handling G R B) → Answer R A × HandlerState G → Answer R B × HandlerState G
  after k (stop r, s) = (stop r, s)
  after k (next a, s) = k a s

  infixl 5 ◌>>=◌
  unfoldable pub ◌>>=◌ : Handling G R A → (A → Handling G R B) → Handling G R B
  m >>= k = λ s. after k (m s)

module _ {G : Type 0} where
  abbrev pub db_of : HandlerState G → Db G
  db_of s = record {
    operations = s.server.operations;
    statements = s.statements;
    checkpoints = s.checkpoints;
    calls = s.server.calls;
  }

  abbrev pub put_db : Db G → HandlerState G → HandlerState G
  put_db db s = record s {
    server = record s.server { operations = db.operations; calls = db.calls };
    statements = db.statements;
    checkpoints = db.checkpoints;
  }

  -- A command on its way to an agent.
  abbrev pub issued : Text → AgentCommand → HandlerState G → HandlerState G
  issued agent cmd s = record s {
    server = record s.server { calls = suc s.server.calls };
    sent = s.sent ++ (agent, cmd) ∷ [];
  }

module _ {G R : Type 0} where
  unfoldable pub pure : {A : Type 0} → A → Handling G R A
  pure a = λ s. (next a, s)

  unfoldable pub end_with : {A : Type 0} → R → Handling G R A
  end_with r = λ s. (stop r, s)

  -- What a program reads of the state.
  unfoldable pub asks : {A : Type 0} → (HandlerState G → A) → Handling G R A
  asks f = λ s. (next (f s), s)

  -- Go on where the test holds.
  unfoldable pub require : Bool → R → Handling G R Unit
  require true r = λ s. (next tt, s)
  require false r = λ s. (stop r, s)

  -- The value, or the early end for an error.
  unfoldable pub value_of : {A : Type 0} → Result A → (Text → R) → Handling G R A
  value_of (ok a) f = λ s. (next a, s)
  value_of (err e) f = λ s. (stop (f e), s)

  unfoldable pub value_at : {A : Type 0} → Option A → R → Handling G R A
  value_at (some a) r = λ s. (next a, s)
  value_at none r = λ s. (stop r, s)

  unfoldable pub with_server : (Server G → Server G) → Handling G R Unit
  with_server f = λ s. (next tt, record s { server = f s.server })

  -- A call that answers.
  unfoldable pub with_answer : {A : Type 0} → (Server G → A × Server G) → Handling G R A
  with_answer f = λ s. let (a, server) = f s.server in (next a, record s { server = server })

  unfoldable pub with_bus : (EventBus → EventBus) → Handling G R Unit
  with_bus f = λ s. (next tt, record s { bus = f s.bus })

  unfoldable pub on_bus : {A : Type 0} → (EventBus → A × EventBus) → Handling G R A
  on_bus f = λ s. let (a, bus) = f s.bus in (next a, record s { bus = bus })

  -- A call of the store.
  unfoldable pub on_db : {A : Type 0} → (Db G → A × Db G) → Handling G R A
  on_db f = λ s. let (a, db) = f (db_of s) in (next a, put_db db s)

  -- A call of the store that changes the record it is given: the record and the error.
  unfoldable pub on_record :
      (Db G → Operation G × Option Text × Db G) → Handling G R (Operation G × Option Text)
  on_record f = λ s. let (op, e, db) = f (db_of s) in (next (op, e), put_db db s)

  -- The rest of the server goes on.
  unfoldable pub meanwhile : HandlerEnv G → Handling G R Unit
  meanwhile env = λ s. (next tt, env.others s.server.calls s)

  -- `transitionTo`: the record behind it, and whether the update won.
  unfoldable pub transition :
      HandlerEnv G → Operation G → OperationState → Handling G R (Operation G × Result Bool)
  transition env op to = λ s.
      let (op', r, server) = transition_to env.answers op to s.server in
      (next (op', r), record s { server = server })

  -- `sendCommand`: while the agent answers, the rest of the server goes on.
  unfoldable pub send_command :
      HandlerEnv G → Text → AgentCommand → Handling G R (Result AgentResponse)
  send_command env agent cmd = λ s. (
    next (env.reply s.server.calls agent cmd),
    env.others (suc s.server.calls) (issued agent cmd s),
  )
