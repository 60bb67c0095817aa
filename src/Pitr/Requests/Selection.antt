-- ===== src/Pitr/Requests/Selection.antt =====
-- From the selection of transactions to their execution in internal/server/pitr/handler.go: what
-- Select stores is what Execute sends.
use mysql_pitr.Base.{
  ℕ, suc, ◌+◌, ◌≡◌, ◌≢◌, refl, sym, ap, ◌∙◌, inl, inr, true, leb, List, [], ◌∷◌, ◌++◌, Option, none,
  some, length, Option-cases, arith,
}
use mathlib.Core.Path.{subst}
use mysql_pitr.Base.Text.{Text, text_eq_refl}
use mysql_pitr.Base.Int.{ℤ, pos}
use mysql_pitr.Base.Result.{ok}
use mysql_pitr.Pitr.Preview.{Preview, StatementWire, sql_of}
use mysql_pitr.Pitr.Operations.{Operation, OpStatement, tables_of_selected}
use mysql_pitr.Pitr.Store.{
  Db, Sql, insert_by_index, by_index, statements_of, load_statements, save_statements_and_select,
}
use mysql_pitr.Pitr.Store.Atomic.{Replaced, save_statements_and_select-Replaced}
use mysql_pitr.Pitr.Calls.{
  AgentCommand, execute, HandlerState, HandlerEnv, Answer, stop, ◌>>=◌, asks, value_at, on_db, pure,
  end_with, db_of, put_db,
}
use mysql_pitr.Pitr.Stream.{snapshot, tx_index, wires_statements, selected_statements}
use mysql_pitr.Base.Dict.{lookup}
use mysql_pitr.Pitr.Filters.{statements_to_wire}
use mysql_pitr.Pitr.Requests.{Reply, refused, replied, Body, Handler, none_or_refused}
use mysql_pitr.Pitr.Requests.Run.{send_execute}
use mysql_pitr.Pitr.Requests.Select.{
  unknown_ids, without_sql, all_known, all_with_sql, save_selection, select_staged,
}
use mysql_pitr.Pitr.Requests.Sent.{OthersAreSilent, commands_for, send_execute-sent}

abbrev the_answer : {G : Type 0} → Reply G → Answer (Reply G) Unit
the_answer r = stop r

refused≢replied :
    {G : Type 0} (code c : ℕ) (e : Text) (b : Body G)
    → (the_answer (refused code e)) ≢ the_answer (replied c b)
refused≢replied code c e b h = cc

-- The statements are numbered one after another, from `i` on.
abbrev pub IsNumbered : ℕ → List OpStatement → Type 0
IsNumbered i [] = Unit
IsNumbered i (st ∷ sts) = (st.stmt_index ≡ pos i) × IsNumbered (suc i) sts

IsNumbered-append :
    (i : ℕ) (xs ys : List OpStatement)
    → IsNumbered i xs
    → IsNumbered (i + length xs) ys
    → IsNumbered i (xs ++ ys)
IsNumbered-append i [] ys h k = subst (λ n. IsNumbered n ys) (omega arith) k
IsNumbered-append i (x ∷ xs) ys (e, h) k =
    (e, IsNumbered-append (suc i) xs ys h (subst (λ n. IsNumbered n ys) (omega arith) k))

wires_statements-IsNumbered :
    (tx i : ℕ) (ws : List StatementWire) → IsNumbered i (wires_statements tx i ws)
unfolding wires_statements
wires_statements-IsNumbered tx i [] = tt
wires_statements-IsNumbered tx i (w ∷ ws) = (refl, wires_statements-IsNumbered tx (suc i) ws)

length-wires_statements :
    (tx i : ℕ) (ws : List StatementWire) → length (wires_statements tx i ws) ≡ length ws
unfolding wires_statements
length-wires_statements tx i [] = refl
length-wires_statements tx i (w ∷ ws) = ap suc (length-wires_statements tx (suc i) ws)

-- The statements of a selection are numbered one after another, across its transactions.
pub selected_statements-IsNumbered :
    (p : Preview) (i : ℕ) (ids : List Text) → IsNumbered i (selected_statements p i ids)
unfolding selected_statements
selected_statements-IsNumbered p i [] = tt
selected_statements-IsNumbered p i (id ∷ ids) =
    IsNumbered-append i (wires_statements _ i (sql_of id p)) _
      (wires_statements-IsNumbered _ i (sql_of id p))
      (rw (length-wires_statements (tx_index p id) i (sql_of id p))
        (selected_statements-IsNumbered p (i + length (sql_of id p)) ids))

abbrev staged : Option (List StatementWire) → List StatementWire
staged none = []
staged (some ws) = ws

-- The statements that the preview holds for the transactions, one transaction after another.
abbrev pub chosen : Preview → List Text → List StatementWire
chosen p [] = []
chosen p (id ∷ ids) = staged (lookup id p.sql_by_tx) ++ chosen p ids

-- One command to the operation's agent, if there are statements.
abbrev pub execute_commands :
    {G : Type 0} → Operation G → ℤ → List StatementWire → List (Text × AgentCommand)
execute_commands op n [] = []
execute_commands op n (w ∷ ws) = (op.agent_id, execute op.id (w ∷ ws) n) ∷ []

statements_to_wire-append :
    (xs ys : List OpStatement)
    → statements_to_wire (xs ++ ys) ≡ statements_to_wire xs ++ statements_to_wire ys
unfolding statements_to_wire
statements_to_wire-append [] ys = refl
statements_to_wire-append (x ∷ xs) ys =
    ap
      (λ ws.
        record { sql = x.sql; tx_id = x.tx_id; tx_order = x.tx_order; warnings = x.warnings } ∷ ws)
      (statements_to_wire-append xs ys)

statements_to_wire-wires_statements :
    (tx i : ℕ) (ws : List StatementWire) → statements_to_wire (wires_statements tx i ws) ≡ ws
unfolding statements_to_wire wires_statements
statements_to_wire-wires_statements tx i [] = refl
statements_to_wire-wires_statements tx i (w ∷ ws) =
    ap (◌∷◌ w) (statements_to_wire-wires_statements tx (suc i) ws)

sql_of-staged : (id : Text) (p : Preview) → sql_of id p ≡ staged (lookup id p.sql_by_tx)
sql_of-staged id p = elim (Option-cases (lookup id p.sql_by_tx)) [
  | inl e ↦ rw e refl
  | inr (ws, e) ↦ rw e refl
]

-- What is stored for a selection is sent as it was staged.
statements_to_wire-selected_statements :
    (p : Preview) (i : ℕ) (ids : List Text)
    → statements_to_wire (selected_statements p i ids) ≡ chosen p ids
unfolding selected_statements
statements_to_wire-selected_statements p i [] = unfold statements_to_wire in refl
statements_to_wire-selected_statements p i (id ∷ ids) =
    statements_to_wire-append (wires_statements (tx_index p id) i (sql_of id p)) _
    ∙ ap (λ xs. xs ++ statements_to_wire (selected_statements p (i + length (sql_of id p)) ids))
        (statements_to_wire-wires_statements (tx_index p id) i (sql_of id p) ∙ sql_of-staged id p)
    ∙ ap (λ ys. staged (lookup id p.sql_by_tx) ++ ys)
        (statements_to_wire-selected_statements p (i + length (sql_of id p)) ids)

leb-suc : (i : ℕ) → leb i (suc i) ≡ true
leb-suc i = ground arith

-- Numbered statements are in the order of their numbers.
by_index-IsNumbered : (i : ℕ) (sts : List OpStatement) → IsNumbered i sts → by_index sts ≡ sts
by_index-IsNumbered i [] h = refl
by_index-IsNumbered i (st ∷ []) h = refl
by_index-IsNumbered i (st ∷ x ∷ sts) (e, (q, h)) =
    ap (insert_by_index st) (by_index-IsNumbered (suc i) (x ∷ sts) (q, h))
    ∙ rw (e, q, leb-suc i) refl

module _ {G : Type 0} (env : Sql) where
  load_statements-ok :
      (id : Text) (stmts : List OpStatement) (db : Db G)
      → statements_of id db.statements ≡ stmts
      → IsNumbered 0 stmts
      → env.exec_err db.calls ≡ none
      → (load_statements env id db).0 ≡ ok stmts
  unfolding load_statements
  load_statements-ok id stmts db e h q =
      rw (q, load_statements) (rw e (ap ok (by_index-IsNumbered 0 stmts h)))

  saved_statements :
      (id : Text) (stmts : List OpStatement) (db : Db G) (r : Option Text × Db G)
      → Replaced id stmts id db r
      → r.0 ≡ none
      → statements_of id r.1.statements ≡ stmts
  saved_statements id stmts db (e, db') (inl (n, these)) h = these ∙ rw (text_eq_refl id) refl
  saved_statements id stmts db (e, db') (inr (some_err, same, rows)) h = elim (some_err h) [ ]

module _ {G : Type 0} where
  -- What ends a selection: the error of the store, or the answer.
  abbrev answered : Option Text → Body G → Handler G Unit
  answered e b = none_or_refused 500 e >>= (λ _. end_with (replied 200 b))

  answered-replied :
      (e : Option Text) (b b' : Body G) (c : ℕ) (s : HandlerState G)
      → (answered e b s).0 ≡ stop (replied c b')
      → (e ≡ none) × ((answered e b s).1 ≡ s)
  unfolding ◌>>=◌ pure end_with
  answered-replied none b b' c s h = (refl, refl)
  answered-replied (some e) b b' c s h = elim (refused≢replied _ c _ b' h) [ ]

  -- A selection that is answered with a body has passed the checks, and has been saved.
  checked-replied :
      (us : List Text) (w : Option Text) (f : Db G → Option Text × Db G) (b b' : Body G) (c : ℕ)
      (s : HandlerState G)
      → let m = all_known us >>= (λ _. all_with_sql w >>= (λ _. on_db f >>= (λ e. answered e b))) in
        (m s).0 ≡ stop (replied c b')
        → ((f (db_of s)).0 ≡ none) × ((m s).1 ≡ put_db (f (db_of s)).1 s)
  unfolding ◌>>=◌ on_db pure end_with
  checked-replied [] none f b b' c s h =
      answered-replied (f (db_of s)).0 b b' c (put_db (f (db_of s)).1 s) h
  checked-replied [] (some id) f b b' c s h = elim (refused≢replied _ c _ b' h) [ ]
  checked-replied (u ∷ us) w f b b' c s h = elim (refused≢replied _ c _ b' h) [ ]

module _ {G : Type 0} (env : HandlerEnv G) where
  save_selection-load :
      (op : Operation G) (ids : List Text) (p : Preview) (c : ℕ) (b : Body G) (s : HandlerState G)
      → (save_selection env op p ids s).0 ≡ stop (replied c b)
      → env.sql.exec_err (save_selection env op p ids s).1.server.calls ≡ none
      → (load_statements env.sql op.id (db_of (save_selection env op p ids s).1)).0
        ≡ ok (selected_statements p 0 ids)
  unfolding save_selection
  save_selection-load op ids p c b s h =
      let stmts = selected_statements p 0 ids in
      let f = save_statements_and_select env.sql op.id stmts ids (tables_of_selected p.metas ids) in
      let (saved, e) = checked-replied (unknown_ids p ids) (without_sql p ids) f _ b c s h in
      subst
        (λ t.
          env.sql.exec_err t.server.calls ≡ none
          → (load_statements env.sql op.id (db_of t)).0 ≡ ok stmts)
        (sym e)
        (load_statements-ok env.sql op.id stmts (f (db_of s)).1
          (saved_statements env.sql op.id stmts (db_of s) (f (db_of s))
            (save_statements_and_select-Replaced env.sql op.id stmts ids
              (tables_of_selected p.metas ids) op.id (db_of s)).0
            saved)
          (selected_statements-IsNumbered p 0 ids))

  commands_for-execute :
      (op : Operation G) (n : ℤ) (stmts : List OpStatement) (ws : List StatementWire)
      → statements_to_wire stmts ≡ ws
      → commands_for env op (λ sts. execute op.id (statements_to_wire sts) n) (ok stmts)
        ≡ execute_commands op n ws
  unfolding statements_to_wire
  commands_for-execute op n [] ws e = ap (execute_commands op n) e
  commands_for-execute op n (st ∷ sts) ws e = ap (execute_commands op n) e

  -- A selection that Select answers with a body, in the mode `sql`, is in the store: loading the
  -- statements of the operation gives those of the chosen transactions of the preview, in the order of
  -- the request, if the database answers.
  pub select_staged-load :
      (op : Operation G) (ids : List Text) (p : Preview) (c : ℕ) (b : Body G) (s : HandlerState G)
      → snapshot op.id s ≡ some p
      → (select_staged env op ids s).0 ≡ stop (replied c b)
      → env.sql.exec_err (select_staged env op ids s).1.server.calls ≡ none
      → (load_statements env.sql op.id (db_of (select_staged env op ids s).1)).0
        ≡ ok (selected_statements p 0 ids)
  unfolding select_staged ◌>>=◌ asks value_at
  select_staged-load op ids p c b s e = rw e (save_selection-load op ids p c b s)

  -- What Select stored is what Execute sends: behind a selection in the mode `sql` that is answered
  -- with a body, `sendExecute` with the command of Execute sends one command to the operation's agent,
  -- made of the statements that the preview holds for the chosen transactions, in the order of the
  -- request, and none if the preview holds none; if the database answers and others send nothing in
  -- the meantime.
  pub send_execute-select_staged :
      (op : Operation G) (ids : List Text) (p : Preview) (c : ℕ) (b : Body G) (s : HandlerState G)
      (n : ℤ)
      → snapshot op.id s ≡ some p
      → (select_staged env op ids s).0 ≡ stop (replied c b)
      → env.sql.exec_err (select_staged env op ids s).1.server.calls ≡ none
      → OthersAreSilent env
      → let t = (select_staged env op ids s).1 in
        (send_execute env op (λ stmts. execute op.id (statements_to_wire stmts) n) t).1.sent
        ≡ t.sent ++ execute_commands op n (chosen p ids)
  send_execute-select_staged op ids p c b s n e h q quiet =
      let t = (select_staged env op ids s).1 in
      let command : List OpStatement → AgentCommand =
        λ stmts. execute op.id (statements_to_wire stmts) n in
      send_execute-sent env op command t quiet
      ∙ ap (λ r. t.sent ++ commands_for env op command r) (select_staged-load op ids p c b s e h q)
      ∙ ap (λ cs. t.sent ++ cs)
          (commands_for-execute op n (selected_statements p 0 ids) (chosen p ids)
            (statements_to_wire-selected_statements p 0 ids))
