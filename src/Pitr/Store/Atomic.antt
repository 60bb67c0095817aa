-- ===== src/Pitr/Store/Atomic.antt =====
-- The transactions of internal/server/pitr/store.go write all or nothing.
use mysql_pitr.Base.{
  ℕ, suc, ◌+◌, ◌≡◌, ◌≢◌, ◌⊎◌, refl, sym, ap, ◌∙◌, inl, inr, true, List, [], ◌∷◌, ◌++◌, Option, none,
  any, arith, if◌then◌else◌, Bool-cases, Option-cases, append_assoc, append-nil, length,
}
use mysql_pitr.Base.Text.{Text, text_eq, text_eq_iff}
use mysql_pitr.Base.Result.{ok, Result-cases, ok-injective}
use mysql_pitr.Binlog.Types.{Time, TableRef}
use mysql_pitr.Pitr.Operations.{Operation, OpStatement}
use mysql_pitr.Pitr.Store.{
  Db, Sql, drop_statements, statements_of, insert_err, key_taken, insert_statements,
  replace_statements, save_statements, save_statements_and_select, select_rows, has_id,
}

-- The rows of the statements of an operation.
abbrev pub statement_rows : Text → List OpStatement → List (Text × OpStatement)
statement_rows id [] = []
statement_rows id (st ∷ sts) = (id, st) ∷ statement_rows id sts

insert_statements-ok :
    (env : Sql) (n : ℕ) (id : Text) (stmts : List OpStatement)
    (rows out : List (Text × OpStatement))
    → insert_statements env n id stmts rows ≡ ok out
    → out ≡ rows ++ statement_rows id stmts
unfolding insert_statements
insert_statements-ok env n id [] rows out h = sym (ok-injective h) ∙ sym (append-nil rows)
insert_statements-ok env n id (st ∷ sts) rows out h =
    elim (Option-cases (insert_err env n (key_taken id st rows))) [
      | inl e ↦
          insert_statements-ok env (suc n) id sts (rows ++ (id, st) ∷ []) out
            (rw (e, insert_statements) at h)
          ∙ append_assoc rows ((id, st) ∷ []) (statement_rows id sts)
      | inr (x, e) ↦ cc (rw (e, insert_statements) at h)
    ]

replace_statements-ok :
    (env : Sql) (n : ℕ) (id : Text) (stmts : List OpStatement)
    (rows out : List (Text × OpStatement))
    → replace_statements env n id stmts rows ≡ ok out
    → out ≡ drop_statements id rows ++ statement_rows id stmts
unfolding replace_statements
replace_statements-ok env n id stmts rows out h = elim (Option-cases (env.exec_err n)) [
  | inr (x, e) ↦ cc (rw (e, replace_statements) at h)
  | inl e ↦ elim (Option-cases (env.exec_err (suc n))) [
    | inr (x, q) ↦ cc (rw (e, q, replace_statements) at h)
    | inl q ↦
        insert_statements-ok env _ id stmts (drop_statements id rows) out
          (rw (e, q, replace_statements) at h)
  ]
]

statements_of-append :
    (id : Text) (rows more : List (Text × OpStatement))
    → statements_of id (rows ++ more) ≡ statements_of id rows ++ statements_of id more
statements_of-append id [] more = refl
statements_of-append id (r ∷ rows) more = elim (Bool-cases (text_eq r.0 id)) [
  | inl e ↦ rw e (ap (◌∷◌ r.1) (statements_of-append id rows more))
  | inr e ↦ rw e (statements_of-append id rows more)
]

-- A delete takes the statements of its operation, and no others.
statements_of-drop_statements :
    (id j : Text) (rows : List (Text × OpStatement))
    → statements_of j (drop_statements id rows)
      ≡ (if text_eq j id then [] else statements_of j rows)
statements_of-drop_statements id j [] = ground arith
statements_of-drop_statements id j (r ∷ rows) = ground (
  arith,
  text_eq_iff r.0 id,
  text_eq_iff r.0 j,
  text_eq_iff j id,
  statements_of-drop_statements id j rows,
)

-- New rows of an operation hold statements of no other.
statements_of-statement_rows :
    (id j : Text) (sts : List OpStatement)
    → statements_of j (statement_rows id sts) ≡ (if text_eq j id then sts else [])
statements_of-statement_rows id j [] = ground arith
statements_of-statement_rows id j (st ∷ sts) =
    ground (arith, text_eq_iff id j, text_eq_iff j id, statements_of-statement_rows id j sts)

-- What a transaction over the statements came to, seen at any operation `j`: the statements of `id`
-- are the given ones, and those of every other operation are as they were; or there is an error, and
-- every table is as it was.
abbrev pub Replaced :
    {G : Type 0} → Text → List OpStatement → Text → Db G → Option Text × Db G → Type 0
Replaced id stmts j db (e, db') =
    ((e ≡ none)
      × (statements_of j db'.statements
          ≡ (if text_eq j id then stmts else statements_of j db.statements)))
    ⊎ ((e ≢ none) × (db'.statements ≡ db.statements) × (db'.operations ≡ db.operations))

-- The rows of an operation get the selection, its tables and the time; every other row is as it was.
abbrev pub SelectedRows :
    {G : Type 0}
    → Text
    → List Text
    → List TableRef
    → Time
    → List (Operation G)
    → List (Operation G)
    → Type 0
SelectedRows id tx_ids tables ts [] [] = Unit
SelectedRows id tx_ids tables ts (r ∷ rs) (r' ∷ rs') =
    (((r.id ≡ id)
        × (r' ≡ record r { selected_tx_ids = tx_ids; target_tables = tables; updated_at = ts }))
      ⊎ ((r.id ≢ id) × (r' ≡ r)))
    × SelectedRows id tx_ids tables ts rs rs'
SelectedRows id tx_ids tables ts _ _ = ⊥

-- Some row is the operation's.
abbrev pub IsStored : {G : Type 0} → Text → List (Operation G) → Type 0
IsStored id [] = ⊥
IsStored id (r ∷ rs) = (r.id ≡ id) ⊎ IsStored id rs

module _ {G : Type 0} (id : Text) where
  select_rows-SelectedRows :
      (tx_ids : List Text) (tables : List TableRef) (ts : Time) (rs : List (Operation G))
      → SelectedRows id tx_ids tables ts rs (select_rows id tx_ids tables ts rs)
  select_rows-SelectedRows tx_ids tables ts [] = tt
  select_rows-SelectedRows tx_ids tables ts (r ∷ rs) = elim (Bool-cases (text_eq r.id id)) [
    | inl e ↦
        rw e (inl ((text_eq_iff r.id id).0 e, refl), select_rows-SelectedRows tx_ids tables ts rs)
    | inr e ↦ rw e (
      inr ((λ q. absurd (ground (arith, e, (text_eq_iff r.id id).1 q))), refl),
      select_rows-SelectedRows tx_ids tables ts rs,
    )
  ]

  any-IsStored : (rs : List (Operation G)) → any (has_id id) rs ≡ true → IsStored id rs
  any-IsStored [] h = cc
  any-IsStored (r ∷ rs) h = elim (Bool-cases (text_eq r.id id)) [
    | inl e ↦ inl ((text_eq_iff r.id id).0 e)
    | inr e ↦ inr (any-IsStored rs (rw e at h))
  ]

replaced_rows :
    (env : Sql) (n : ℕ) (id : Text) (stmts : List OpStatement) (j : Text)
    (rows out : List (Text × OpStatement))
    → replace_statements env n id stmts rows ≡ ok out
    → statements_of j out ≡ (if text_eq j id then stmts else statements_of j rows)
replaced_rows env n id stmts j rows out h =
    let new = statement_rows id stmts in
    ap (statements_of j) (replace_statements-ok env n id stmts rows out h)
    ∙ statements_of-append j (drop_statements id rows) new
    ∙ elim (Bool-cases (text_eq j id)) [
      | inl e ↦
          rw (statements_of-drop_statements id j rows, statements_of-statement_rows id j stmts)
            (rw e refl)
      | inr e ↦
          rw (statements_of-drop_statements id j rows, statements_of-statement_rows id j stmts)
            (rw e (append-nil (statements_of j rows)))
    ]

module _ {G : Type 0} (env : Sql) where
  -- Saving the statements of an operation is atomic: either it reports no error, the operation's
  -- statements are exactly the given ones, and those of other operations are as before; or it reports
  -- one, and no statement changes.
  pub save_statements-Replaced :
      (id : Text) (stmts : List OpStatement) (j : Text) (db : Db G)
      → Replaced id stmts j db (save_statements env id stmts db)
  unfolding save_statements
  save_statements-Replaced id stmts j db =
      elim (Result-cases (replace_statements env db.calls id stmts db.statements)) [
        | inr (x, e) ↦ rw (e, save_statements) (inr (λ z. cc, refl, refl))
        | inl (rows, e) ↦ elim (Option-cases (env.exec_err (db.calls + (length stmts + 2)))) [
          | inr (x, q) ↦ rw (e, save_statements) (rw q (inr (λ z. cc, refl, refl)))
          | inl q ↦
              rw (e, save_statements)
                (rw q (inl (refl, replaced_rows env db.calls id stmts j db.statements rows e)))
        ]
      ]

  -- Saving the statements with the selection is atomic: either it reports no error, the statements
  -- are replaced as above and the operation's record has the selection; or it reports one, and
  -- neither the statements nor the records change. It reports one if there is no such operation.
  pub save_statements_and_select-Replaced :
      (id : Text) (stmts : List OpStatement) (tx_ids : List Text) (tables : List TableRef)
      (j : Text) (db : Db G)
      → let (e, db') = save_statements_and_select env id stmts tx_ids tables db in
        Replaced id stmts j db (e, db')
        × (((e ≡ none)
              × IsStored id db.operations
              × ((ts : Time) × SelectedRows id tx_ids tables ts db.operations db'.operations))
            ⊎ (e ≢ none))
  unfolding save_statements_and_select
  save_statements_and_select-Replaced id stmts tx_ids tables j db =
      let n = db.calls + (length stmts + 2) in
      elim (Result-cases (replace_statements env db.calls id stmts db.statements)) [
        | inr (x, e) ↦ rw (e, save_statements_and_select) (inr (λ z. cc, refl, refl), inr (λ z. cc))
        | inl (rows, e) ↦ elim (Option-cases (env.exec_err n)) [
          | inr (x, q) ↦
              rw (e, save_statements_and_select) (rw q (inr (λ z. cc, refl, refl), inr (λ z. cc)))
          | inl q ↦ elim (Bool-cases (any (has_id id) db.operations)) [
            | inr b ↦
                rw (e, save_statements_and_select)
                  (rw q (rw b (inr (λ z. cc, refl, refl), inr (λ z. cc))))
            | inl b ↦ elim (Option-cases (env.exec_err (suc n))) [
              | inr (x, c) ↦
                  rw (e, save_statements_and_select)
                    (rw q (rw b (rw c (inr (λ z. cc, refl, refl), inr (λ z. cc)))))
              | inl c ↦
                  rw (e, save_statements_and_select)
                    (rw q (
                      rw b (
                        rw c (
                          inl (refl, replaced_rows env db.calls id stmts j db.statements rows e),
                          inl (
                            refl,
                            any-IsStored id db.operations b,
                            (
                              env.now n,
                              select_rows-SelectedRows id tx_ids tables (env.now n) db.operations,
                            ),
                          ),
                        ))))
            ]
          ]
        ]
      ]
