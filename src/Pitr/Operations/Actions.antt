-- ===== src/Pitr/Operations/Actions.antt =====
-- Any sequence of the calls of internal/server/pitr that move operations.
use mysql_pitr.Base.{
  ◌≡◌, ◌≢◌, ◌⊎◌, refl, ap, Bool, true, false, List, [], ◌∷◌, Option-cases, Bool-cases, inl, inr,
  any, arith, ◌==◌, if◌then◌else◌,
}
use mathlib.Core.Path.{subst}
use mysql_pitr.Base.Text.{Text}
use mysql_pitr.Base.Result.{Result, ok}
use mysql_pitr.Binlog.Types.{Time}
use mysql_pitr.Pitr.State.{
  OperationState, try_transition_err, transition_valid, try_transition_err-none,
}
use mysql_pitr.Pitr.Operations.{
  Operation, Server, Answers, transition_to, fail_operation, block_operation,
  handle_agent_disconnect, reconcile_on_startup, set_rows, is_row, update_if_status, settled,
}
use mysql_pitr.Pitr.Operations.Rows.{SwappedRows, HasRow, set_rows-SwappedRows, any-HasRow}
use mysql_pitr.Pitr.Operations.Moves.{
  Moved, Moved-refl, Moved-trans, transition_to-Moved, fail_operation-Moved, block_operation-Moved,
  handle_agent_disconnect-Moved, reconcile_on_startup-Moved,
}

-- The records that the calls are made with may be out of date.
pub data Action (G : Type 0) : Type 0 where
  move : Operation G → OperationState → Action G
  fail block : Operation G → Text → Action G
  disconnect : Text → Action G
  reconcile : Action G

module _ {G : Type 0} (env : Answers) where
  abbrev pub act : Action G → Server G → Server G
  act (move op to) s = (transition_to env op to s).2
  act (fail op details) s = fail_operation env op details s
  act (block op details) s = block_operation env op details s
  act (disconnect agent) s = handle_agent_disconnect env agent s
  act reconcile s = (reconcile_on_startup env s).1

  abbrev pub acts : List (Action G) → Server G → Server G
  acts [] s = s
  acts (a ∷ calls) s = acts calls (act a s)

  act-Moved : (a : Action G) (s : Server G) → Moved s.operations (act a s).operations
  act-Moved (move op to) s = transition_to-Moved env op to s
  act-Moved (fail op details) s = fail_operation-Moved env op details s
  act-Moved (block op details) s = block_operation-Moved env op details s
  act-Moved (disconnect agent) s = handle_agent_disconnect-Moved env agent s
  act-Moved reconcile s = reconcile_on_startup-Moved env s

  -- Whatever calls are made, with records however old, and whatever the database answers: every
  -- stored operation keeps its place and its identifier, and its status moves along admitted
  -- transitions only.
  pub acts-Moved :
      (calls : List (Action G)) (s : Server G) → Moved s.operations (acts calls s).operations
  acts-Moved [] s = Moved-refl s.operations
  acts-Moved (a ∷ calls) s =
      Moved-trans s.operations (act a s).operations _ (act-Moved a s) (acts-Moved calls (act a s))

set_rows-none :
    {G : Type 0} (id : Text) (from to : OperationState) (ts : Time) (rs : List (Operation G))
    → any (is_row id from) rs ≡ false
    → set_rows id from to ts rs ≡ rs
set_rows-none id from to ts [] h = refl
set_rows-none id from to ts (r ∷ rs) h = elim (Bool-cases (is_row id from r)) [
  | inl e ↦ absurd (ground (arith, e, h))
  | inr e ↦ rw e (ap (◌∷◌ r) (set_rows-none id from to ts rs (ground (arith, h))))
]

-- What a transition came to: it won, and the rows that still had the status which the record was
-- read with have the new one; or nothing was changed, and the record has its status back.
abbrev pub Swapped :
    {G : Type 0}
    → Operation G
    → OperationState
    → Server G
    → Operation G × Result Bool × Server G
    → Type 0
Swapped {G} op to s (op', r, s') =
    ((r ≡ ok true)
      × (op'.status ≡ to)
      × (transition_valid op.status to ≡ true)
      × HasRow op.id op.status s.operations
      × ((ts : Time) × SwappedRows op.id op.status to ts s.operations s'.operations))
    ⊎ ((r ≢ ok true) × (op'.status ≡ op.status) × (s'.operations ≡ s.operations))

module _ {G : Type 0} (env : Answers) where
  settled-Swapped :
      (op op' : Operation G) (s : Server G)
      → transition_valid op.status op'.status ≡ true
      → op'.id ≡ op.id
      → Swapped op op'.status s (settled env op' op.status (update_if_status env op' op.status s))
  unfolding update_if_status
  settled-Swapped op op' s h q =
      let ts : Time = if op'.updated_at == 0 then env.now s.calls else op'.updated_at in
      elim (Option-cases (env.update_err s.calls)) [
        | inr (x, e) ↦ rw (e, update_if_status) (inr (λ z. cc, refl, refl))
        | inl e ↦ elim (Bool-cases (any (is_row op'.id op.status) s.operations)) [
          | inl b ↦
              rw (e, update_if_status)
                (rw b (
                  inl (
                    refl,
                    refl,
                    h,
                    subst (λ i. HasRow i op.status s.operations) q
                        (any-HasRow op'.id op.status s.operations b),
                    (
                      ts,
                      subst
                          (λ i.
                            SwappedRows i op.status op'.status ts s.operations
                              (set_rows op'.id op.status op'.status ts s.operations))
                          q (set_rows-SwappedRows op'.id op.status op'.status ts s.operations),
                    ),
                  )))
          | inr b ↦
              rw (e, update_if_status)
                (rw b
                  (inr (λ z. cc, refl, set_rows-none op'.id op.status op'.status _ s.operations b)))
        ]
      ]

  -- A transition is a compare-and-swap. Either it is admitted, some row still has the status that
  -- the record was read with, and exactly such rows of the operation get the new status; or no row
  -- changes and the record keeps its status.
  pub transition_to-Swapped :
      (op : Operation G) (to : OperationState) (s : Server G)
      → Swapped op to s (transition_to env op to s)
  unfolding transition_to
  transition_to-Swapped op to s = elim (Option-cases (try_transition_err op.status to)) [
    | inl e ↦
        rw (e, transition_to)
          (settled-Swapped op (record op { status = to; updated_at = env.now s.calls }) s
            ((try_transition_err-none op.status to).0 e) refl)
    | inr (x, e) ↦ rw (e, transition_to) (inr (λ z. cc, refl, refl))
  ]
