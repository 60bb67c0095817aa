-- ===== src/Pitr/Requests/Advances/Views.antt =====
-- The stored operations under the requests of internal/server/pitr/handler.go that only read: Status,
-- Transactions, List and Events.
use mysql_pitr.Base.{ℕ, ◌≡◌, refl, Bool, List, [], ◌∷◌, Option, none, some, inl, inr, Option-cases}
use mysql_pitr.Base.Text.{Text, text_eq}
use mysql_pitr.Base.Result.{Result, ok, err}
use mysql_pitr.Pitr.Operations.{Operation}
use mysql_pitr.Pitr.Store.{Db, Sql, load_checkpoint, list_by_org, list_where}
use mysql_pitr.Pitr.Events.{StreamEvent}
use mysql_pitr.Pitr.Calls.{HandlerEnv}
use mysql_pitr.Pitr.Calls.Guarantee.{Guarantees}
use mysql_pitr.Pitr.Calls.Advances.{Advances, OthersAdvance}
use mysql_pitr.Pitr.Filters.{Formats}
use mysql_pitr.Pitr.Requests.{Request, Handler, status, transactions_of, views, list}
use mysql_pitr.Pitr.Requests.Sse.{
  Turn, receives, ticks, gone, synthetic_terminal_event, polled, received, ended, sse_loop, events,
}
use mysql_pitr.Pitr.Requests.Advances.{request_rules, is_member-Advances, authorize_op-Advances}

module _ {G : Type 0} (env : Sql) where
  load_checkpoint-operations :
      (id : Text) (db : Db G) → (load_checkpoint env id db).1.operations ≡ db.operations
  unfolding load_checkpoint
  load_checkpoint-operations id db = elim (Option-cases (env.exec_err db.calls)) [
    | inl e ↦ rw (e, load_checkpoint) refl
    | inr (x, e) ↦ rw (e, load_checkpoint) refl
  ]

  list_where-operations :
      (p : Operation G → Bool) (db : Db G) → (list_where env p db).1.operations ≡ db.operations
  list_where-operations p db = elim (Option-cases (env.exec_err db.calls)) [
    | inl e ↦ rw (e, list_where) refl
    | inr (x, e) ↦ rw (e, list_where) refl
  ]

  list_by_org-operations :
      (org : Text) (db : Db G) → (list_by_org env org db).1.operations ≡ db.operations
  unfolding list_by_org
  list_by_org-operations org db = list_where-operations (λ r. text_eq r.org_id org) db

module _ {G : Type 0} (env : HandlerEnv G) (rely : OthersAdvance env) where
  pub status-Advances : (req : Request) → Guarantees Advances (status env req)
  unfolding status
  status-Advances req =
      search (request_rules, authorize_op-Advances, load_checkpoint-operations) depth 9

  pub transactions_of-Advances : (req : Request) → Guarantees Advances (transactions_of env req)
  unfolding transactions_of
  transactions_of-Advances req = search (request_rules, authorize_op-Advances)

  views-Advances :
      (fm : Formats G) (from to : Text) (ops : List (Operation G))
      → Guarantees Advances (views env fm from to ops)
  unfolding views
  views-Advances fm from to [] = search request_rules
  views-Advances fm from to (op ∷ ops) =
      let ih = views-Advances fm from to ops in search (request_rules, ih)

  pub list-Advances :
      (fm : Formats G) (req : Request) (org from to : Text)
      → Guarantees Advances (list env fm req org from to)
  unfolding list
  list-Advances fm req org from to =
      search (request_rules, is_member-Advances, list_by_org-operations, views-Advances) depth 16

  synthetic_terminal_event-Advances :
      (op : Operation G) → Guarantees Advances (synthetic_terminal_event env op)
  unfolding synthetic_terminal_event
  synthetic_terminal_event-Advances op = search (request_rules, load_checkpoint-operations)

  polled-Advances : (r : Result (Operation G)) → Guarantees Advances (polled env r)
  polled-Advances (err e) = search request_rules
  polled-Advances (ok cur) = search (request_rules, synthetic_terminal_event-Advances)

  received-Advances :
      (go : Handler G (List StreamEvent)) (ev : Option StreamEvent)
      → Guarantees Advances go
      → Guarantees Advances (received env go ev)
  received-Advances go none h = h
  received-Advances go (some ev) h = search (request_rules, h)

  ended-Advances :
      (go : Handler G (List StreamEvent)) (ev : Option StreamEvent)
      → Guarantees Advances go
      → Guarantees Advances (ended env go ev)
  ended-Advances go none h = h
  ended-Advances go (some ev) h = search request_rules

  sse_loop-Advances :
      (id : Text) (c : ℕ) (ts : List Turn) → Guarantees Advances (sse_loop env id c ts)
  unfolding sse_loop
  sse_loop-Advances id c [] = search request_rules
  sse_loop-Advances id c (receives ∷ ts) =
      let ih = sse_loop-Advances id c ts in search (request_rules, received-Advances _ _ ih)
  sse_loop-Advances id c (ticks ∷ ts) =
      let ih = sse_loop-Advances id c ts in
      search (request_rules, polled-Advances, ended-Advances _ _ ih) depth 9
  sse_loop-Advances id c (gone ∷ ts) = search request_rules

  pub events-Advances : (req : Request) (ts : List Turn) → Guarantees Advances (events env req ts)
  unfolding events
  events-Advances req ts =
      search
        (request_rules, authorize_op-Advances, synthetic_terminal_event-Advances, sse_loop-Advances)
        depth 12
