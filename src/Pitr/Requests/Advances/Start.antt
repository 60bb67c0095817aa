-- ===== src/Pitr/Requests/Advances/Start.antt =====
-- The stored operations under Start of internal/server/pitr/handler.go.
use mysql_pitr.Base.{Option}
use mysql_pitr.Base.Text.{Text}
use mysql_pitr.Base.Result.{Result, ok, err}
use mysql_pitr.Pitr.Operations.{Operation}
use mysql_pitr.Pitr.Calls.{ScanFilter, AgentResponse, accepted, rejected, HandlerEnv}
use mysql_pitr.Pitr.Calls.Guarantee.{Guarantees}
use mysql_pitr.Pitr.Calls.Advances.{Advances, OthersAdvance}
use mysql_pitr.Pitr.Filters.{Formats}
use mysql_pitr.Pitr.Requests.{Request}
use mysql_pitr.Pitr.Requests.Start.{
  StartRequest, block_offline, scan_answer, launch, start_for, start,
}
use mysql_pitr.Pitr.Requests.Advances.{request_rules, is_member-Advances, fail_with-Advances}

module _ {G : Type 0} (env : HandlerEnv G) (rely : OthersAdvance env) where
  scan_answer-Advances :
      (fm : Formats G) (op : Operation G) (r : Result AgentResponse)
      → Guarantees Advances (scan_answer env fm op r)
  scan_answer-Advances fm op (err e) = fail_with-Advances env rely Unit op e _
  scan_answer-Advances fm op (ok (rejected e)) = fail_with-Advances env rely Unit op e _
  scan_answer-Advances fm op (ok accepted) = search request_rules

  block_offline-Advances :
      (fm : Formats G) (op : Operation G) → Guarantees Advances (block_offline env fm op)
  block_offline-Advances fm op = search request_rules

  launch-Advances :
      (fm : Formats G) (op : Operation G) (req : StartRequest) (f : ScanFilter)
      → Guarantees Advances (launch env fm op req f)
  unfolding launch
  launch-Advances fm op req f =
      search (request_rules, scan_answer-Advances, block_offline-Advances) depth 16

  start_for-Advances :
      (fm : Formats G) (user : Text) (req : StartRequest) (f : ScanFilter)
      → Guarantees Advances (start_for env fm user req f)
  unfolding start_for
  start_for-Advances fm user req f =
      search (request_rules, is_member-Advances, launch-Advances) depth 16

  pub start-Advances :
      (fm : Formats G) (r : Request) (body : Option StartRequest)
      → Guarantees Advances (start env fm r body)
  unfolding start
  start-Advances fm r body = search (request_rules, start_for-Advances) depth 16
