-- ===== src/Pitr/Requests/Routes.antt =====
-- The requests that internal/server/router.go routes to the handlers of
-- internal/server/pitr/handler.go.
use mysql_pitr.Base.{List, Option, Bool, true, false, ◌≡◌, arith}
use mysql_pitr.Base.Text.{Text}
use mysql_pitr.Base.Int.{ℤ}
use mysql_pitr.Pitr.Calls.{HandlerEnv}
use mysql_pitr.Pitr.Calls.Guarantee.{Guarantees}
use mysql_pitr.Pitr.Calls.Advances.{Advances, OthersAdvance}
use mysql_pitr.Pitr.Filters.{Formats}
use mysql_pitr.Pitr.Requests.{Request, Handler, status, transactions_of, list}
use mysql_pitr.Pitr.Requests.Run.{execute_op, resume_op, pause_op, cancel_op}
use mysql_pitr.Pitr.Requests.Start.{StartRequest, start}
use mysql_pitr.Pitr.Requests.Select.{select}
use mysql_pitr.Pitr.Requests.Sse.{Turn, events}
use mysql_pitr.Pitr.Requests.Advances.{
  execute_op-Advances, resume_op-Advances, pause_op-Advances, cancel_op-Advances,
}
use mysql_pitr.Pitr.Requests.Advances.Start.{start-Advances}
use mysql_pitr.Pitr.Requests.Advances.Views.{
  status-Advances, transactions_of-Advances, list-Advances, events-Advances,
}

pub data Route : Type 0 where
  to_list : Text → Text → Text → Route
  to_start : Option StartRequest → Route
  to_status to_transactions to_resume to_pause to_cancel : Route
  to_select : Option (List Text) → Route
  to_execute : Option ℤ → Route
  to_events : List Turn → Route

abbrev is_select : Route → Bool
is_select (to_select ids) = true
is_select _ = false

module _ {G : Type 0} (env : HandlerEnv G) (fm : Formats G) where
  unfoldable pub serve : Request → Route → Handler G Unit
  serve req (to_list org from to) = list env fm req org from to
  serve req (to_start body) = start env fm req body
  serve req to_status = status env req
  serve req to_transactions = transactions_of env req
  serve req to_resume = resume_op env req
  serve req to_pause = pause_op env req
  serve req to_cancel = cancel_op env req
  serve req (to_select ids) = select env fm req ids
  serve req (to_execute n) = execute_op env req n
  serve req (to_events ts) = events env req ts

module _ {G : Type 0} (env : HandlerEnv G) (fm : Formats G) (rely : OthersAdvance env) where
  -- Whatever a client requests but a selection, on every branch of the handler, and whatever the rest
  -- of the server does in the meantime as long as it keeps to the same: no stored operation is lost,
  -- and each one moves along admitted transitions.
  pub serve-Advances :
      (req : Request) (r : Route) → is_select r ≡ false → Guarantees Advances (serve env fm req r)
  unfolding serve
  serve-Advances req (to_list org from to) h = list-Advances env rely fm req org from to
  serve-Advances req (to_start body) h = start-Advances env rely fm req body
  serve-Advances req to_status h = status-Advances env rely req
  serve-Advances req to_transactions h = transactions_of-Advances env rely req
  serve-Advances req to_resume h = resume_op-Advances env rely req
  serve-Advances req to_pause h = pause_op-Advances env rely req
  serve-Advances req to_cancel h = cancel_op-Advances env rely req
  serve-Advances req (to_select ids) h = ground arith
  serve-Advances req (to_execute n) h = execute_op-Advances env rely req n
  serve-Advances req (to_events ts) h = events-Advances env rely req ts
