-- ===== src/Pitr/Requests/Start.antt =====
-- The request that starts an operation: Start of internal/server/pitr/handler.go.
use mysql_pitr.Base.{if◌then◌else◌, not, List, [], ◌∷◌, ◌++◌, Option}
use mysql_pitr.Base.Text.{Text, codes, is_empty, contains}
use mysql_pitr.Base.Int.{ℤ, pos, negsuc}
use mysql_pitr.Base.Result.{Result, ok, err}
use mysql_pitr.Pitr.State.{created, scanning, blocked}
use mysql_pitr.Pitr.Preview.{Preview, preview_cap}
use mysql_pitr.Pitr.Operations.{Operation}
use mysql_pitr.Pitr.Store.{create}
use mysql_pitr.Pitr.Calls.{
  ScanFilter, scan, AgentResponse, accepted, rejected, HandlerEnv, ◌>>=◌, pure, end_with, require,
  value_at, with_server, on_record, transition, send_command, meanwhile,
}
use mysql_pitr.Pitr.Stream.{with_preview}
use mysql_pitr.Pitr.Filters.{Formats, validate_scan_filter, scan_filter_to_binlog}
use mysql_pitr.Pitr.Requests.{
  Request, refused, replied, Handler, started, ask, none_or_refused, won_or_refused, is_member,
  fail_with,
}

pub record StartRequest : Type 0 where
  pub agent_id : Text
  pub op_type : Text
  pub mode : Text
  pub filter : ScanFilter
  pub max_preview : ℤ

abbrev op_types : List Text
op_types = codes "flashback" ∷ codes "update_rollback" ∷ codes "pitr" ∷ codes "tx_rollback" ∷ []

abbrev modes : List Text
modes = codes "meta" ∷ codes "sql" ∷ codes "selected" ∷ []

abbrev type_message : Text
type_message =
    codes "type must be one of \"flashback\", \"update_rollback\", \"pitr\", or \"tx_rollback\""

abbrev mode_message : Text
mode_message = codes "mode must be one of \"meta\", \"sql\", or \"selected\""

-- The bytes of "agent is offline — start it with `mysql-pitr-agent serve` first".
abbrev offline_message : Text
offline_message =
    codes "agent is offline "
    ++ (226 ∷ 128 ∷ 148 ∷ codes " start it with `mysql-pitr-agent serve` first")

abbrev nonnegative : ℤ → ℤ
nonnegative (pos n) = pos n
nonnegative (negsuc n) = pos 0

-- The request with the default type, and no negative row limit.
abbrev pub typed : StartRequest → StartRequest
typed req = record req { op_type = if is_empty req.op_type then codes "pitr" else req.op_type }

abbrev pub normalized : ScanFilter → ScanFilter
normalized f = record f { max_rows_per_tx = nonnegative f.max_rows_per_tx }

module _ {G : Type 0} (env : HandlerEnv G) (fm : Formats G) where
  -- The record of a new operation.
  abbrev pub new_operation : Text → Text → StartRequest → ScanFilter → Operation G
  new_operation user org req f = record {
    id = [];
    org_id = org;
    agent_id = req.agent_id;
    op_type = req.op_type;
    mode = req.mode;
    filter = scan_filter_to_binlog fm f;
    status = created;
    created_by = user;
    created_at = 0;
    updated_at = 0;
    selected_tx_ids = [];
    target_tables = [];
    statements = [];
  }

  abbrev pub capped : ℤ → Preview → Preview
  capped n p = record p { max_entries = preview_cap n }

  -- The agent is offline: the transition's result is only logged.
  abbrev pub block_offline : Operation G → Handler G Unit
  block_offline op = transition env op blocked >>= (λ r. end_with (refused 409 offline_message))

  abbrev pub scan_answer : Operation G → Result AgentResponse → Handler G Unit
  scan_answer op (err e) = fail_with env op e (codes "start scan: " ++ e)
  scan_answer op (ok (rejected e)) = fail_with env op e (codes "agent rejected scan: " ++ e)
  scan_answer op (ok accepted) = pure tt

  -- The operation moves to `scanning` before the command leaves.
  unfoldable pub launch : Operation G → StartRequest → ScanFilter → Handler G Unit
  launch op req f = with_server (with_preview op.id (capped req.max_preview)) >>= (λ _.
      (transition env op scanning >>= won_or_refused 500) >>= (λ op'.
        ask (λ n. env.is_connected n req.agent_id) >>= (λ online.
          (if online then pure tt else block_offline op') >>= (λ _.
            send_command env op'.agent_id
              (scan op'.id (record { filter = f; mode = req.mode; max_preview = req.max_preview }))
            >>= (λ answer.
                scan_answer op' answer
                >>= (λ _. end_with (replied 201 (started op'.id op'.status))))))))

  unfoldable pub start_for : Text → StartRequest → ScanFilter → Handler G Unit
  start_for user req f = ask (λ n. env.agent n req.agent_id) >>= (λ found.
      value_at found (refused 404 (codes "agent not found")) >>= (λ agt.
        is_member env agt.org_id user (codes "not a member of the agent's organisation") >>= (λ _.
          require agt.approved (refused 409 (codes "agent is not approved")) >>= (λ _.
            on_record (create env.sql (new_operation user agt.org_id req f)) >>= (λ r.
              none_or_refused 500 r.1 >>= (λ _. meanwhile env >>= (λ _. launch r.0 req f)))))))

  unfoldable pub start : Request → Option StartRequest → Handler G Unit
  start r body = require (not (is_empty r.user)) (refused 401 (codes "not authenticated")) >>= (λ _.
      value_at body (refused 400 (codes "invalid request body")) >>= (λ raw.
        require (not (is_empty raw.agent_id)) (refused 400 (codes "agentId is required")) >>= (λ _.
          let req = typed raw in
          require (contains op_types req.op_type) (refused 400 type_message) >>= (λ _.
            require (contains modes req.mode) (refused 400 mode_message) >>= (λ _.
              none_or_refused 400 (validate_scan_filter fm req.filter)
              >>= (λ _. start_for r.user req (normalized req.filter)))))))
