-- ===== src/Pitr/Requests/Denied.antt =====
-- What the requests of internal/server/pitr/handler.go do for a user who is no member of an
-- organisation.
use mysql_pitr.Base.{
  ℕ, suc, ◌≡◌, refl, ◌∙◌, ap, Bool, true, false, List, Option, none, some, inl, inr, Option-cases,
}
use mysql_pitr.Base.Text.{Text, codes, contains}
use mysql_pitr.Base.Result.{Result, ok, err}
use mysql_pitr.Pitr.Store.{Db, Sql, get}
use mysql_pitr.Pitr.Calls.{
  HandlerState, HandlerEnv, Answer, stop, next, after, ◌>>=◌, require, value_at, with_answer, on_db,
  pure, end_with, db_of, put_db,
}
use mysql_pitr.Pitr.Filters.{Formats}
use mysql_pitr.Pitr.Requests.{
  Reply, refused, replied, streamed, Handler, ask, or_refused, none_or_refused, is_member,
  authorize_op, status, transactions_of, list,
}
use mysql_pitr.Pitr.Requests.Run.{execute_op, resume_op, pause_op, cancel_op}
use mysql_pitr.Pitr.Requests.Start.{StartRequest, start_for, start}
use mysql_pitr.Pitr.Requests.Select.{select}
use mysql_pitr.Pitr.Requests.Sse.{events}
use mysql_pitr.Pitr.Requests.Routes.{
  Route, to_list, to_start, to_status, to_transactions, to_resume, to_pause, to_cancel, to_select,
  to_execute, to_events, serve,
}

module _ {G : Type 0} where
  abbrev recount : HandlerState G → ℕ → HandlerState G
  recount s n = record s { server = record s.server { calls = n } }

  -- The same state, but for the number of the calls.
  abbrev pub Untouched : HandlerState G → HandlerState G → Type 0
  Untouched s s' = (n : ℕ) × (s' ≡ recount s n)

  Untouched-trans : (r s t : HandlerState G) → Untouched r s → Untouched s t → Untouched r t
  Untouched-trans r s t (m, h) (n, k) = (n, k ∙ ap (λ x. recount x n) h)

  -- An answer that ends in a refusal.
  abbrev IsRefusal : {A : Type 0} → Answer (Reply G) A → Type 0
  IsRefusal (stop (refused code e)) = Unit
  IsRefusal _ = ⊥

  -- An answer that goes on, or ends in a refusal.
  abbrev IsQuiet : {A : Type 0} → Answer (Reply G) A → Type 0
  IsQuiet (stop (refused code e)) = Unit
  IsQuiet (stop _) = ⊥
  IsQuiet (next a) = Unit

  -- A program that refuses and leaves the state untouched.
  unfoldable pub Denies : {A : Type 0} → Handler G A → Type 0
  Denies m = (s : HandlerState G) → Untouched s (m s).1 × IsRefusal (m s).0

  unfoldable pub Quiet : {A : Type 0} → Handler G A → Type 0
  Quiet m = (s : HandlerState G) → Untouched s (m s).1 × IsQuiet (m s).0

  stopped-Denies :
      {A B : Type 0} (k : A → Handler G B) (s : HandlerState G)
      (r : Answer (Reply G) A × HandlerState G)
      → (Untouched s r.1 × IsRefusal r.0)
      → Untouched s (after k r).1 × IsRefusal (after k r).0
  stopped-Denies k s (stop (refused code e), t) (u, h) = (u, h)
  stopped-Denies k s (stop (replied code b), t) (u, h) = elim h [ ]
  stopped-Denies k s (stop (streamed fs), t) (u, h) = elim h [ ]
  stopped-Denies k s (next a, t) (u, h) = elim h [ ]

  stop-Denies : {A B : Type 0} (m : Handler G A) (k : A → Handler G B) → Denies m → Denies (m >>= k)
  unfolding Denies ◌>>=◌
  stop-Denies m k h s = stopped-Denies k s (m s) (h s)

  after-Denies :
      {A B : Type 0} (k : A → Handler G B) (s : HandlerState G)
      (r : Answer (Reply G) A × HandlerState G)
      → (Untouched s r.1 × IsQuiet r.0)
      → ((a : A) → Denies (k a))
      → Untouched s (after k r).1 × IsRefusal (after k r).0
  unfolding Denies
  after-Denies k s (stop (refused code e), t) (u, h) hk = (u, tt)
  after-Denies k s (stop (replied code b), t) (u, h) hk = elim h [ ]
  after-Denies k s (stop (streamed fs), t) (u, h) hk = elim h [ ]
  after-Denies k s (next a, t) (u, h) hk =
      let (v, q) = hk a t in (Untouched-trans s t (k a t).1 u v, q)

  bind-Denies :
      {A B : Type 0} (m : Handler G A) (k : A → Handler G B)
      → Quiet m
      → ((a : A) → Denies (k a))
      → Denies (m >>= k)
  unfolding Quiet Denies ◌>>=◌
  bind-Denies m k h hk s = after-Denies k s (m s) (h s) hk

module _ (G : Type 0) where
  require-Quiet : (b : Bool) (code : ℕ) (e : Text) → Quiet (require {G = G} b (refused code e))
  unfolding Quiet require
  require-Quiet true code e s = ((s.server.calls, refl), tt)
  require-Quiet false code e s = ((s.server.calls, refl), tt)

  value_at-Quiet :
      {A : Type 0} (v : Option A) (code : ℕ) (e : Text)
      → Quiet (value_at {G = G} v (refused code e))
  unfolding Quiet value_at
  value_at-Quiet none code e s = ((s.server.calls, refl), tt)
  value_at-Quiet (some a) code e s = ((s.server.calls, refl), tt)

  or_refused-Quiet : {A : Type 0} (code : ℕ) (r : Result A) → Quiet (or_refused {G = G} code r)
  unfolding Quiet pure end_with
  or_refused-Quiet code (ok a) s = ((s.server.calls, refl), tt)
  or_refused-Quiet code (err e) s = ((s.server.calls, refl), tt)

  none_or_refused-Quiet : (code : ℕ) (r : Option Text) → Quiet (none_or_refused {G = G} code r)
  unfolding Quiet pure end_with
  none_or_refused-Quiet code none s = ((s.server.calls, refl), tt)
  none_or_refused-Quiet code (some e) s = ((s.server.calls, refl), tt)

  ask-Quiet : {A : Type 0} (f : ℕ → A) → Quiet (ask {G = G} f)
  unfolding Quiet with_answer
  ask-Quiet f s = ((suc s.server.calls, refl), tt)

module _ {G : Type 0} (env : Sql) where
  get-recount : (id : Text) (db : Db G) → (get env id db).1 ≡ record db { calls = suc db.calls }
  unfolding get
  get-recount id db = elim (Option-cases (env.exec_err db.calls)) [
    | inl e ↦ rw (e, get) refl
    | inr (x, e) ↦ rw (e, get) refl
  ]

module _ (G : Type 0) (env : Sql) where
  get-Quiet : (id : Text) → Quiet (on_db {G = G} {R = Reply G} (get env id))
  unfolding Quiet on_db
  get-Quiet id s = ((suc s.server.calls, ap (λ db. put_db db s) (get-recount env id (db_of s))), tt)

ruleset denied_rules = (
  stop-Denies, bind-Denies, require-Quiet, value_at-Quiet, or_refused-Quiet, none_or_refused-Quiet,
  ask-Quiet, get-Quiet,
)

abbrev is_in : Text → Option (List Text) → Bool
is_in user none = false
is_in user (some members) = contains members user

-- The store of the organisations never has this user.
abbrev pub IsOutsider : {G : Type 0} → HandlerEnv G → Text → Type 0
IsOutsider env user = (n : ℕ) (org : Text) → is_in user (env.members n org) ≡ false

module _ {G : Type 0} (env : HandlerEnv G) (user : Text) (out : IsOutsider env user) where
  admission : Option (List Text) → Text → Handler G Unit
  admission found message =
      value_at found (refused 404 (codes "organisation not found"))
      >>= (λ members. require (contains members user) (refused 403 message))

  admission-Denies :
      (found : Option (List Text)) (message : Text)
      → is_in user found ≡ false
      → Denies (admission found message)
  unfolding admission Denies ◌>>=◌ value_at require
  admission-Denies none message h s = ((s.server.calls, refl), tt)
  admission-Denies (some members) message h s = rw h ((s.server.calls, refl), tt)

  is_member-Denies : (org message : Text) → Denies (is_member env org user message)
  unfolding admission Denies ◌>>=◌ with_answer
  is_member-Denies org message s =
      let s' = recount s (suc s.server.calls) in
      let (u, h) =
        admission-Denies (env.members s.server.calls org) message (out s.server.calls org) s' in
      (Untouched-trans s s' _ (suc s.server.calls, refl) u, h)

  authorize_op-Denies :
      (email id : Text) → Denies (authorize_op env (record { user = user; email = email; id = id }))
  unfolding authorize_op
  authorize_op-Denies email id = search (denied_rules, is_member-Denies) depth 16

  start-Denies :
      (fm : Formats G) (email id : Text) (body : Option StartRequest)
      → Denies (start env fm (record { user = user; email = email; id = id }) body)
  unfolding start start_for
  start-Denies fm email id body = search (denied_rules, is_member-Denies) depth 20

  list-Denies :
      (fm : Formats G) (email id org from to : Text)
      → Denies (list env fm (record { user = user; email = email; id = id }) org from to)
  unfolding list
  list-Denies fm email id org from to = search (denied_rules, is_member-Denies) depth 16

module _ {G : Type 0} (env : HandlerEnv G) (fm : Formats G) where
  -- A user whom the store of the organisations does not name as a member, at any time, gets a refusal
  -- from every request, and the request changes nothing: no row, statement or checkpoint of the
  -- database, no audit entry, preview or subscription, and no command goes out.
  pub serve-Denies :
      (user email id : Text) (r : Route)
      → IsOutsider env user
      → Denies (serve env fm (record { user = user; email = email; id = id }) r)
  unfolding serve status transactions_of execute_op resume_op pause_op cancel_op select events
  serve-Denies user email id (to_list org from to) h =
      list-Denies env user h fm email id org from to
  serve-Denies user email id (to_start body) h = start-Denies env user h fm email id body
  serve-Denies user email id to_status h = stop-Denies _ _ (authorize_op-Denies env user h email id)
  serve-Denies user email id to_transactions h =
      stop-Denies _ _ (authorize_op-Denies env user h email id)
  serve-Denies user email id to_resume h = stop-Denies _ _ (authorize_op-Denies env user h email id)
  serve-Denies user email id to_pause h = stop-Denies _ _ (authorize_op-Denies env user h email id)
  serve-Denies user email id to_cancel h = stop-Denies _ _ (authorize_op-Denies env user h email id)
  serve-Denies user email id (to_select ids) h =
      stop-Denies _ _ (authorize_op-Denies env user h email id)
  serve-Denies user email id (to_execute n) h =
      stop-Denies _ _ (authorize_op-Denies env user h email id)
  serve-Denies user email id (to_events ts) h =
      stop-Denies _ _ (authorize_op-Denies env user h email id)
