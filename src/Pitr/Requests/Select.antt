-- ===== src/Pitr/Requests/Select.antt =====
-- The requests that choose the transactions: Select and selectRescan of
-- internal/server/pitr/handler.go.
use mysql_pitr.Base.{
  ℕ, if◌then◌else◌, Bool, true, false, not, List, [], ◌∷◌, ◌++◌, Option, none, some, keep, length,
  map,
}
use mysql_pitr.Base.Text.{Text, codes, text_eq, contains, join}
use mysql_pitr.Base.Int.{pos}
use mysql_pitr.Base.Result.{Result, ok, err}
use mysql_pitr.Pitr.State.{OperationState, ready, scanning, state_eq}
use mysql_pitr.Pitr.Preview.{Preview, TxMetaWire, sql_of}
use mysql_pitr.Pitr.Operations.{Operation, OpStatement, tables_of_selected}
use mysql_pitr.Pitr.Store.{
  get, update, save_statements, save_statements_and_select, load_statements,
}
use mysql_pitr.Pitr.Calls.{
  ScanRequest, scan, AgentResponse, accepted, rejected, HandlerEnv, ◌>>=◌, pure, end_with, asks,
  require, value_at, on_db, on_record, transition, send_command, meanwhile,
}
use mysql_pitr.Pitr.Stream.{snapshot, selected_statements, is_some_id}
use mysql_pitr.Pitr.Filters.{Formats, binlog_filter_to_wire}
use mysql_pitr.Pitr.Requests.{
  Request, refused, replied, Handler, selected, rescanning, none_or_refused, won_or_refused,
  authorize_op,
}
use mysql_pitr.Pitr.Requests.Run.{state_refusal}

abbrev is_preview_id : Preview → Text → Bool
is_preview_id p id = contains (map (λ (m : TxMetaWire). m.tx_id) p.metas) id

-- The chosen transactions that the preview does not have.
unfoldable pub unknown_ids : Preview → List Text → List Text
unknown_ids p ids = keep (λ id. not (is_preview_id p id)) ids

-- The first chosen transaction without statements.
unfoldable pub without_sql : Preview → List Text → Option Text
without_sql p [] = none
without_sql p (id ∷ ids) =
    let rest = without_sql p ids in elim (sql_of id p) [ [] ↦ some id | w ∷ ws ↦ rest ]

abbrev no_preview : Text
no_preview = codes "no scan preview available for this operation"

module _ {G : Type 0} where
  abbrev pub all_known : List Text → Handler G Unit
  all_known [] = pure tt
  all_known (id ∷ ids) =
      end_with
        (refused 400 (codes "transaction(s) not in scan preview: " ++ join (codes ", ") (id ∷ ids)))

  abbrev pub all_with_sql : Option Text → Handler G Unit
  all_with_sql none = pure tt
  all_with_sql (some id) = end_with (
      refused 409 (
        codes "no SQL statements available for transaction "
        ++ (id ++ codes " (scan produced metadata only)")))

  -- The record with the selection, and the tables that it touches.
  abbrev with_selection : Operation G → Preview → List Text → ℕ → Operation G
  with_selection op p ids now = record op {
    selected_tx_ids = ids;
    target_tables = tables_of_selected p.metas ids;
    updated_at = now;
  }

module _ {G : Type 0} (env : HandlerEnv G) where
  -- The checks of a selection, then one transaction of the store.
  unfoldable pub save_selection : Operation G → Preview → List Text → Handler G Unit
  save_selection op p ids = all_known (unknown_ids p ids) >>= (λ _.
      all_with_sql (without_sql p ids) >>= (λ _.
        let stmts = selected_statements p 0 ids in
        on_db (save_statements_and_select env.sql op.id stmts ids (tables_of_selected p.metas ids))
        >>= (λ e.
            none_or_refused 500 e
            >>= (λ _. end_with (replied 200 (selected op.id op.status ids (length stmts)))))))

  -- The selection in the mode `sql`: the statements of the first scan.
  unfoldable pub select_staged : Operation G → List Text → Handler G Unit
  select_staged op ids =
      asks (snapshot op.id)
      >>= (λ found. value_at found (refused 409 no_preview) >>= (λ p. save_selection op p ids))

  abbrev rescan_answer : Result AgentResponse → Handler G Unit
  rescan_answer (err e) = end_with (refused 502 (codes "send rescan: " ++ e))
  rescan_answer (ok (rejected e)) = end_with (refused 502 (codes "agent rejected rescan: " ++ e))
  rescan_answer (ok accepted) = pure tt

  abbrev some_loaded : Result (List OpStatement) → Bool
  some_loaded (ok (st ∷ sts)) = true
  some_loaded _ = false

  abbrev status_or : OperationState → Result (Operation G) → OperationState
  status_or st (ok cur) = cur.status
  status_or st (err e) = st

  -- The state behind the roll back to `ready`.
  abbrev rolled_back : Operation G × Result Bool → Handler G OperationState
  rolled_back (op, ok true) = pure op.status
  rolled_back (op, _) = on_db (get env.sql op.id) >>= (λ again. pure (status_or op.status again))

  -- The state that is read again behind the transition to `scanning`: statements that are there again
  -- mean that the second scan is over, and the operation goes back.
  abbrev read_again : Operation G → Result (Operation G) → Handler G OperationState
  read_again op (err e) = pure op.status
  read_again op (ok cur) =
      if state_eq cur.status scanning
      then on_db (load_statements env.sql op.id)
        >>= (λ r. if some_loaded r then transition env op ready >>= rolled_back else pure op.status)
      else pure cur.status

module _ {G : Type 0} (env : HandlerEnv G) (fm : Formats G) where
  abbrev rescan_request : Operation G → List Text → ScanRequest
  rescan_request op ids = record {
    filter = record (binlog_filter_to_wire fm op.filter) { selected_tx_ids = ids };
    mode = codes "selected";
    max_preview = pos 0;
  }

  -- From the command on.
  unfoldable pub rescan : Operation G → List Text → Handler G Unit
  rescan op ids = send_command env op.agent_id (scan op.id (rescan_request op ids)) >>= (λ answer.
      rescan_answer env answer >>= (λ _.
        (transition env op scanning >>= won_or_refused 500) >>= (λ op'. meanwhile env >>= (λ _.
          on_db (get env.sql op'.id) >>= (λ cur.
            read_again env op' cur
            >>= (λ st. end_with (replied 200 (rescanning op'.id st ids))))))))

  unfoldable pub select_rescan : Operation G → List Text → Handler G Unit
  select_rescan op ids = asks (snapshot op.id) >>= (λ found.
      value_at found (refused 409 no_preview) >>= (λ p. all_known (unknown_ids p ids) >>= (λ _.
        asks (λ s. env.answers.now s.server.calls) >>= (λ now.
          on_record (update env.sql (with_selection op p ids now)) >>= (λ r.
            none_or_refused 500 r.1 >>= (λ _.
              on_db (save_statements env.sql op.id [])
              >>= (λ e. none_or_refused 500 e >>= (λ _. rescan r.0 ids))))))))

  -- The body's transactions; `none` where it cannot be decoded.
  unfoldable pub select : Request → Option (List Text) → Handler G Unit
  select req body = authorize_op env req >>= (λ op.
      value_at body (refused 400 (codes "invalid request body")) >>= (λ ids.
        require (is_some_id ids) (refused 400 (codes "txIds is required")) >>= (λ _.
          require (state_eq op.status ready) (
            state_refusal env
              (codes "operation must be in state \"ready\" to select transactions (current state ")
              op (codes ")"))
          >>= (λ _.
              if text_eq op.mode (codes "selected")
              then select_rescan op ids
              else select_staged env op ids))))
