-- ===== src/Pitr/Calls/Advances.antt =====
-- The stored operations under the calls that the handlers of internal/server/pitr/handler.go are
-- made of.
use mysql_pitr.Base.{
  ℕ, suc, ◌≡◌, refl, sym, ◌∙◌, inl, inr, List, [], ◌∷◌, ◌++◌, ◌+◌, length, any, Bool-cases,
  Option-cases,
}
use mathlib.Core.Path.{subst}
use mysql_pitr.Base.Text.{Text, is_empty}
use mysql_pitr.Base.Int.{ℤ}
use mysql_pitr.Base.Result.{Result-cases}
use mysql_pitr.Pitr.State.{OperationState}
use mysql_pitr.Pitr.Operations.{Operation, OpStatement, Server, append_audit, fail_operation}
use mysql_pitr.Pitr.Operations.Moves.{
  Moved, Moved-refl, StatePath, StatePath-trans, transition_to-Moved, append_audit-operations,
  fail_operation-Moved,
}
use mysql_pitr.Pitr.Store.{
  Db, Sql, ServerCheckpoint, get, save_statements, load_statements, save_checkpoint,
  replace_statements, create, insert_err, has_id, with_defaults,
}
use mysql_pitr.Pitr.Events.{EventBus}
use mysql_pitr.Pitr.Calls.{
  HandlerState, HandlerEnv, with_server, with_bus, on_db, on_record, meanwhile, transition,
  send_command, issued, db_of, AgentCommand,
}
use mysql_pitr.Pitr.Calls.Guarantee.{IsPreorder, Guarantees, guarantee_rules}

module _ {G : Type 0} where
  -- Row by row: the same operation, moved along admitted transitions; there may be new rows.
  abbrev pub Grown : List (Operation G) → List (Operation G) → Type 0
  Grown [] rs' = Unit
  Grown (r ∷ rs) [] = ⊥
  Grown (r ∷ rs) (r' ∷ rs') = (r'.id ≡ r.id) × StatePath r.status r'.status × Grown rs rs'

  pub Moved-Grown : (rs rs' : List (Operation G)) → Moved rs rs' → Grown rs rs'
  Moved-Grown [] rs' m = tt
  Moved-Grown (r ∷ rs) [] m = elim m [ ]
  Moved-Grown (r ∷ rs) (r' ∷ rs') (e, p, m) = (e, p, Moved-Grown rs rs' m)

  pub Grown-refl : (rs : List (Operation G)) → Grown rs rs
  Grown-refl rs = Moved-Grown rs rs (Moved-refl rs)

  Grown-trans : (rs ss ts : List (Operation G)) → Grown rs ss → Grown ss ts → Grown rs ts
  Grown-trans [] ss ts h k = tt
  Grown-trans (r ∷ rs) [] ts h k = elim h [ ]
  Grown-trans (r ∷ rs) (s ∷ ss) [] h k = elim k [ ]
  Grown-trans (r ∷ rs) (s ∷ ss) (t ∷ ts) (e, p, h) (q, d, k) =
      (q ∙ e, StatePath-trans p d, Grown-trans rs ss ts h k)

  Grown-append : (rs new : List (Operation G)) → Grown rs (rs ++ new)
  Grown-append [] new = tt
  Grown-append (r ∷ rs) new = (refl, ([], refl, refl), Grown-append rs new)

  -- No stored operation is lost, and all move along admitted transitions only.
  unfoldable pub Advances : HandlerState G → HandlerState G → Type 0
  Advances s s' = Grown s.server.operations s'.server.operations

  pub Advances-IsPreorder : IsPreorder Advances
  unfolding Advances
  Advances-IsPreorder = record {
    reflexive = λ s. Grown-refl s.server.operations;
    transitive =
        λ r s t h k. Grown-trans r.server.operations s.server.operations t.server.operations h k;
  }

  pub same_operations-Advances :
      (s s' : HandlerState G) → s'.server.operations ≡ s.server.operations → Advances s s'
  unfolding Advances
  same_operations-Advances s s' e =
      subst (Grown s.server.operations) (sym e) (Grown-refl s.server.operations)

  -- The rest of the server keeps to the same.
  pub record OthersAdvance (env : HandlerEnv G) : Type 0 where
    pub advance : (n : ℕ) (s : HandlerState G) → Advances s (env.others n s)

module _ (G R : Type 0) where
  pub with_bus-Advances :
      (f : EventBus → EventBus) → Guarantees Advances (with_bus {G = G} {R = R} f)
  unfolding Guarantees with_bus
  with_bus-Advances f s = same_operations-Advances s _ refl

module _ {G : Type 0} (R : Type 0) where
  pub with_server-Advances :
      (f : Server G → Server G)
      → ((s : Server G) → (f s).operations ≡ s.operations)
      → Guarantees Advances (with_server {R = R} f)
  unfolding Guarantees with_server
  with_server-Advances f h s = same_operations-Advances s _ (h s.server)

  -- A call of the store that writes no operation.
  pub on_db-Advances :
      {A : Type 0} (f : Db G → A × Db G)
      → ((db : Db G) → (f db).1.operations ≡ db.operations)
      → Guarantees Advances (on_db {R = R} f)
  unfolding Guarantees on_db
  on_db-Advances f h s = same_operations-Advances s _ (h (db_of s))

module _ {G : Type 0} (env : Sql) where
  pub get-operations : (id : Text) (db : Db G) → (get env id db).1.operations ≡ db.operations
  unfolding get
  get-operations id db = elim (Option-cases (env.exec_err db.calls)) [
    | inl e ↦ rw (e, get) refl
    | inr (x, e) ↦ rw (e, get) refl
  ]

  pub load_statements-operations :
      (id : Text) (db : Db G) → (load_statements env id db).1.operations ≡ db.operations
  unfolding load_statements
  load_statements-operations id db = elim (Option-cases (env.exec_err db.calls)) [
    | inl e ↦ rw (e, load_statements) refl
    | inr (x, e) ↦ rw (e, load_statements) refl
  ]

  pub save_checkpoint-operations :
      (id : Text) (c : ServerCheckpoint) (db : Db G)
      → (save_checkpoint env id c db).1.operations ≡ db.operations
  unfolding save_checkpoint
  save_checkpoint-operations id c db = elim (Bool-cases (is_empty id)) [
    | inl z ↦ rw (z, save_checkpoint) refl
    | inr z ↦ elim (Option-cases (env.exec_err db.calls)) [
      | inl e ↦ rw (z, save_checkpoint) (rw e refl)
      | inr (x, e) ↦ rw (z, save_checkpoint) (rw e refl)
    ]
  ]

  pub save_statements-operations :
      (id : Text) (sts : List OpStatement) (db : Db G)
      → (save_statements env id sts db).1.operations ≡ db.operations
  unfolding save_statements
  save_statements-operations id sts db =
      elim (Result-cases (replace_statements env db.calls id sts db.statements)) [
        | inr (x, e) ↦ rw (e, save_statements) refl
        | inl (rows, e) ↦ elim (Option-cases (env.exec_err (db.calls + (length sts + 2)))) [
          | inr (x, q) ↦ rw (e, save_statements) (rw q refl)
          | inl q ↦ rw (e, save_statements) (rw q refl)
        ]
      ]

  create-Grown :
      (op : Operation G) (db : Db G) → Grown db.operations (create env op db).2.operations
  unfolding create
  create-Grown op db =
      let op' = with_defaults env db.calls op in
      elim (Option-cases (insert_err env db.calls (any (has_id op'.id) db.operations))) [
        | inl e ↦ rw (e, create) (Grown-append db.operations (op' ∷ []))
        | inr (x, e) ↦ rw (e, create) (Grown-refl db.operations)
      ]

module _ {G : Type 0} (R : Type 0) (env : HandlerEnv G) where
  pub create-Advances :
      (op : Operation G) → Guarantees Advances (on_record {R = R} (create env.sql op))
  unfolding Guarantees on_record Advances
  create-Advances op s = create-Grown env.sql op (db_of s)

  pub transition-Advances :
      (op : Operation G) (to : OperationState) → Guarantees Advances (transition {R = R} env op to)
  unfolding Guarantees transition Advances
  transition-Advances op to s =
      Moved-Grown s.server.operations _ (transition_to-Moved env.answers op to s.server)

  pub audit-Advances :
      (op : Operation G) (st : OperationState) (operator details : Text) (n : ℤ)
      → Guarantees Advances
          (with_server {R = R} (append_audit env.answers op st operator details n))
  audit-Advances op st operator details n =
      with_server-Advances R _ (append_audit-operations env.answers op st operator details n)

  pub fail_operation-Advances :
      (op : Operation G) (details : Text)
      → Guarantees Advances (with_server {R = R} (fail_operation env.answers op details))
  unfolding Guarantees with_server Advances
  fail_operation-Advances op details s =
      Moved-Grown s.server.operations _ (fail_operation-Moved env.answers op details s.server)

module _ {G : Type 0} (R : Type 0) (env : HandlerEnv G) (rely : OthersAdvance env) where
  pub meanwhile-Advances : Guarantees Advances (meanwhile {R = R} env)
  unfolding Guarantees meanwhile
  meanwhile-Advances s = rely.advance s.server.calls s

  pub send_command-Advances :
      (agent : Text) (cmd : AgentCommand) → Guarantees Advances (send_command {R = R} env agent cmd)
  unfolding Guarantees send_command Advances
  send_command-Advances agent cmd s = rely.advance (suc s.server.calls) (issued agent cmd s)

pub ruleset advance_rules = (
  guarantee_rules, Advances-IsPreorder, with_bus-Advances, with_server-Advances, on_db-Advances,
  create-Advances, transition-Advances, audit-Advances, fail_operation-Advances, meanwhile-Advances,
  send_command-Advances, get-operations, load_statements-operations, save_checkpoint-operations,
  save_statements-operations,
)
