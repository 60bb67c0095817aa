-- ===== src/Executor/Store/Laws.antt =====
-- The in-memory checkpoint store of internal/executor/checkpoint.go keeps what it saves.
use mysql_pitr.Base.{
  ◌≡◌, refl, ◌∙◌, ap, Bool, true, false, none, some, if◌then◌else◌, Bool-cases, inl, inr, arith,
}
use mysql_pitr.Base.Text.{Text, is_empty, text_eq, text_eq_refl}
use mysql_pitr.Base.Dict.{lookup, lookup-insert, lookup-delete, insert, delete}
use mysql_pitr.Executor.Types.{Checkpoint, found, not_found}
use mysql_pitr.Executor.Store.{Checkpoints, load, save, clear}

-- A checkpoint of a named operation is saved without an error; it is then the one of its
-- operation, and no other operation's checkpoint changes. A checkpoint that is cleared is not
-- found, and no other changes.
pub load-save_new :
    (c : Checkpoint) (s : Checkpoints) (id : Text)
    → is_empty c.operation_id ≡ false
    → ((save c s).1 ≡ none)
      × (load id (save c s).0 ≡ (if text_eq c.operation_id id then found c else load id s))
      × (load id (clear c.operation_id s).0
          ≡ (if text_eq c.operation_id id then not_found else load id s))
unfolding load save clear
load-save_new c s id h =
    rw (h, save)
      (
        refl,
        by_test (text_eq c.operation_id id) (lookup-insert c.operation_id id c s),
        gone (text_eq c.operation_id id) (lookup-delete c.operation_id id s),
      )
  where
    by_test :
        (b : Bool)
        → lookup id (insert c.operation_id c s) ≡ (if b then some c else lookup id s)
        → load id (insert c.operation_id c s) ≡ (if b then found c else load id s)
    by_test true e = rw (e, load) refl
    by_test false e = rw (e, load) refl

    gone :
        (b : Bool)
        → lookup id (delete c.operation_id s) ≡ (if b then none else lookup id s)
        → load id (delete c.operation_id s) ≡ (if b then not_found else load id s)
    gone true e = rw (e, load) refl
    gone false e = rw (e, load) refl

pub load-save :
    (c : Checkpoint) (s : Checkpoints)
    → (save c s).1 ≡ none
    → load c.operation_id (save c s).0 ≡ found c
unfolding save
load-save c s h = elim (Bool-cases (is_empty c.operation_id)) [
  | inl e ↦ absurd (ground (arith, e, h))
  | inr e ↦
      (load-save_new c s c.operation_id e).1
      ∙ ap (λ b. if b then found c else load c.operation_id s) (text_eq_refl c.operation_id)
]
