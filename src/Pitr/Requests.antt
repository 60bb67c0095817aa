-- ===== src/Pitr/Requests.antt =====
-- The requests of internal/server/pitr/handler.go: authorizeOp, Status, Transactions and List here,
-- the others in the modules below. HTTP routing and the encoding of bodies are not modelled: a request
-- is its claims and its decoded parts, a reply its code with a text or a body.
pub mod Run
pub mod Start
pub mod Select
pub mod Sse
pub mod Advances
pub mod Routes
pub mod Denied
pub mod Sent
pub mod Selection
pub mod Frames
mod Tests
use mysql_pitr.Base.{
  ℕ, suc, if◌then◌else◌, Bool, true, false, ◌&&◌, not, ltb, List, [], ◌∷◌, ◌++◌, Option, none, some,
}
use mysql_pitr.Base.Text.{Text, codes, is_empty, contains, text_eq}
use mysql_pitr.Base.Int.{ℤ, pos}
use mysql_pitr.Base.Result.{Result, ok, err}
use mysql_pitr.Binlog.Types.{Time}
use mysql_pitr.Pitr.State.{OperationState, is_terminal}
use mysql_pitr.Pitr.Preview.{Preview, TxMetaWire, StatementWire, sql_of}
use mysql_pitr.Pitr.Operations.{Operation, Server, fail_operation}
use mysql_pitr.Pitr.Store.{ServerCheckpoint, get, list_by_org, load_checkpoint}
use mysql_pitr.Pitr.Calls.{
  ScanFilter, AgentResponse, accepted, rejected, HandlerState, HandlerEnv, Handling, Answer, ◌>>=◌,
  pure, end_with, asks, require, value_at, with_server, with_answer, on_db, meanwhile,
}
use mysql_pitr.Pitr.Stream.{snapshot}
use mysql_pitr.Pitr.Filters.{Formats, binlog_filter_to_wire}

-- The claims of the session, empty without one, and the identifier of the path.
pub record Request : Type 0 where
  pub user : Text
  pub email : Text
  pub id : Text

pub record StatusView : Type 0 where
  pub id : Text
  pub org_id : Text
  pub agent_id : Text
  pub op_type : Text
  pub mode : Text
  pub status : OperationState
  pub created_by : Text
  pub created_at : Time
  pub updated_at : Time
  pub preview_truncated : Bool
  pub checkpoint_done : ℤ
  pub checkpoint_total : ℤ

-- `operationView`: the operation with the wire's filter, and whether its agent is connected.
pub record OperationView (G : Type 0) : Type 0 where
  pub op : Operation G
  pub filter : ScanFilter
  pub agent_connected : Bool

-- The bodies of the replies, by the handler.
pub data Body (G : Type 0) : Type 0 where
  operations : List (OperationView G) → Body G
  started : Text → OperationState → Body G
  status_of : StatusView → Body G
  transactions : Text → OperationState → List (TxMetaWire × List StatementWire) → Bool → Body G
  selected : Text → OperationState → List Text → ℕ → Body G
  rescanning : Text → OperationState → List Text → Body G
  sent_statements : Text → OperationState → ℕ → Body G
  moved : Text → OperationState → Body G

pub data Reply (G : Type 0) : Type 0 where
  refused : ℕ → Text → Reply G
  replied : ℕ → Body G → Reply G
  -- The frames of a stream of events.
  streamed : List Text → Reply G

abbrev pub Handler : Type 0 → Type 0 → Type 0
Handler G A = Handling G (Reply G) A

-- The bytes of "operation state changed concurrently — reload and retry".
abbrev pub changed_concurrently : Text
changed_concurrently =
    codes "operation state changed concurrently " ++ (226 ∷ 128 ∷ 148 ∷ codes " reload and retry")

abbrev pub progress_of : Result (Option ServerCheckpoint) → ℤ × ℤ
progress_of (ok (some c)) = (c.last_stmt, c.total)
progress_of _ = (pos 0, pos 0)

abbrev truncated_of : Option Preview → Bool
truncated_of none = false
truncated_of (some p) = p.truncated

-- The metadata with the statements of each transaction.
abbrev with_sql : Preview → List TxMetaWire → List (TxMetaWire × List StatementWire)
with_sql p [] = []
with_sql p (m ∷ ms) = (m, sql_of m.tx_id p) ∷ with_sql p ms

abbrev previewed : Option Preview → List (TxMetaWire × List StatementWire)
previewed none = []
previewed (some p) = with_sql p p.metas

-- A bound that cannot be parsed is none.
abbrev is_before : Time → Option Time → Bool
is_before t none = false
is_before t (some from) = ltb t from

abbrev is_after : Time → Option Time → Bool
is_after t none = false
is_after t (some to) = ltb to t

module _ {G : Type 0} where
  -- A question to another component, by the number of the call.
  abbrev pub ask : {A : Type 0} → (ℕ → A) → Handler G A
  ask f = with_answer (λ (s : Server G). (f s.calls, record s { calls = suc s.calls }))

  abbrev pub or_refused : {A : Type 0} → ℕ → Result A → Handler G A
  or_refused code (ok a) = pure a
  or_refused code (err e) = end_with (refused code e)

  abbrev pub none_or_refused : ℕ → Option Text → Handler G Unit
  none_or_refused code none = pure tt
  none_or_refused code (some e) = end_with (refused code e)

  -- The record behind a transition that won; the code of an error is the handler's.
  abbrev pub won_or_refused : ℕ → Operation G × Result Bool → Handler G (Operation G)
  won_or_refused code (op, ok true) = pure op
  won_or_refused code (op, ok false) = end_with (refused 409 changed_concurrently)
  won_or_refused code (op, err e) = end_with (refused code e)

module _ {G : Type 0} where
  -- The progress of a finished operation; an error of the store is ignored.
  abbrev status_view : Operation G → Bool → Result (Option ServerCheckpoint) → StatusView
  status_view op truncated found =
      let (last, total) = progress_of found in
      record {
        id = op.id;
        org_id = op.org_id;
        agent_id = op.agent_id;
        op_type = op.op_type;
        mode = op.mode;
        status = op.status;
        created_by = op.created_by;
        created_at = op.created_at;
        updated_at = op.updated_at;
        preview_truncated = truncated;
        checkpoint_done = last;
        checkpoint_total = total;
      }

module _ {G : Type 0} (env : HandlerEnv G) where
  abbrev pub is_member : Text → Text → Text → Handler G Unit
  is_member org user message = ask (λ n. env.members n org) >>= (λ found.
      value_at found (refused 404 (codes "organisation not found"))
      >>= (λ members. require (contains members user) (refused 403 message)))

  unfoldable pub authorize_op : Request → Handler G (Operation G)
  authorize_op req =
      require (not (is_empty req.user)) (refused 401 (codes "not authenticated")) >>= (λ _.
        require (not (is_empty req.id)) (refused 400 (codes "missing operation id")) >>= (λ _.
          on_db (get env.sql req.id) >>= (λ r. or_refused 404 r >>= (λ op.
            is_member op.org_id req.user (codes "not a member of this organisation")
            >>= (λ _. meanwhile env >>= (λ _. pure op))))))

  -- `failOperation`, then the reply.
  abbrev pub fail_with : {A : Type 0} → Operation G → Text → Text → Handler G A
  fail_with op details message =
      with_server (fail_operation env.answers op details) >>= (λ _. end_with (refused 502 message))

  unfoldable pub status : Request → Handler G Unit
  status req = authorize_op req >>= (λ op. asks (snapshot op.id) >>= (λ p.
      (if is_terminal op.status then on_db (load_checkpoint env.sql op.id) else pure (ok none))
      >>= (λ found. end_with (replied 200 (status_of (status_view op (truncated_of p) found))))))

  unfoldable pub transactions_of : Request → Handler G Unit
  transactions_of req = authorize_op req >>= (λ op. asks (snapshot op.id) >>= (λ p.
      end_with (replied 200 (transactions op.id op.status (previewed p) (truncated_of p)))))

module _ {G : Type 0} (fm : Formats G) where
  abbrev parsed : Text → Option Time
  parsed t = if is_empty t then none else fm.parse_time t

  abbrev is_listed : Text → Text → Operation G → Bool
  is_listed from to op =
      not (is_before op.created_at (parsed from)) && not (is_after op.created_at (parsed to))

module _ {G : Type 0} (env : HandlerEnv G) (fm : Formats G) where
  unfoldable pub views : Text → Text → List (Operation G) → Handler G (List (OperationView G))
  views from to [] = pure []
  views from to (op ∷ ops) =
      let rest = views from to ops in
      if is_listed fm from to op
      then ask (λ n. env.is_connected n op.agent_id) >>= (λ c. rest >>= (λ vs. pure (
          record { op = op; filter = binlog_filter_to_wire fm op.filter; agent_connected = c }
          ∷ vs)))
      else rest

  unfoldable pub list : Request → Text → Text → Text → Handler G Unit
  list req org from to =
      require (not (is_empty req.user)) (refused 401 (codes "not authenticated")) >>= (λ _.
        require (not (is_empty org)) (refused 400 (codes "org_id query parameter is required"))
        >>= (λ _. is_member env org req.user (codes "not a member of this organisation") >>= (λ _.
            on_db (list_by_org env.sql org) >>= (λ r.
              or_refused 500 r
              >>= (λ ops. views from to ops >>= (λ vs. end_with (replied 200 (operations vs))))))))
