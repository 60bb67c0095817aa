-- ===== src/Pitr/Operations/Moves.antt =====
-- How the stored operations of internal/server/pitr move.
use mathlib.Core.Path.{subst}
use mysql_pitr.Base.{
  ◌≡◌, refl, ap, ◌∙◌, inl, inr, Bool, true, false, List, [], ◌∷◌, ◌++◌, Option, none, some, arith,
  Bool-cases, Option-cases,
}
use mysql_pitr.Base.Text.{Text}
use mysql_pitr.Base.Result.{Result, ok, err}
use mysql_pitr.Base.Int.{ℤ}
use mysql_pitr.Binlog.Types.{Time}
use mysql_pitr.Pitr.State.{
  OperationState, scanning, executing, failed, blocked, state_eq_iff, transition_valid,
  try_transition_err, try_transition_err-none,
}
use mysql_pitr.Pitr.State.Traces.{is_run}
use mysql_pitr.Pitr.Operations.{
  Operation, Server, Answers, is_row, set_row, set_rows, update_if_status, settled, transition_to,
  append_audit, after_fail, fail_operation, after_block, block_operation, list_by_status, block_all,
  agents_ops, disconnect_listed, handle_agent_disconnect, reconcile_listed, reconcile_next,
  reconcile_on_startup,
}

abbrev pub last_of : OperationState → List OperationState → OperationState
last_of s [] = s
last_of s (t ∷ ts) = last_of t ts

-- Admitted transitions from one state to another.
abbrev pub StatePath : OperationState → OperationState → Type 0
StatePath s t = (ts : List OperationState) × (is_run s ts ≡ true) × (last_of s ts ≡ t)

is_run-append :
    (s : OperationState) (ts us : List OperationState)
    → is_run s ts ≡ true
    → is_run (last_of s ts) us ≡ true
    → is_run s (ts ++ us) ≡ true
is_run-append s [] us h k = k
is_run-append s (t ∷ ts) us h k = ground (arith, is_run-append t ts us)

last_of-append :
    (s : OperationState) (ts us : List OperationState)
    → last_of s (ts ++ us) ≡ last_of (last_of s ts) us
last_of-append s [] us = refl
last_of-append s (t ∷ ts) us = last_of-append t ts us

pub StatePath-trans : {r s t : OperationState} → StatePath r s → StatePath s t → StatePath r t
StatePath-trans {r = r} (ts, h, e) (us, k, q) = (
  ts ++ us,
  is_run-append r ts us h (rw e k),
  last_of-append r ts us ∙ ap (λ x. last_of x us) e ∙ q,
)

module _ {G : Type 0} where
  -- Row by row: the same operation, moved along admitted transitions.
  abbrev pub Moved : List (Operation G) → List (Operation G) → Type 0
  Moved [] [] = Unit
  Moved (r ∷ rs) (r' ∷ rs') = (r'.id ≡ r.id) × StatePath r.status r'.status × Moved rs rs'
  Moved _ _ = ⊥

  pub Moved-refl : (rs : List (Operation G)) → Moved rs rs
  Moved-refl [] = tt
  Moved-refl (r ∷ rs) = (refl, ([], refl, refl), Moved-refl rs)

  pub Moved-trans : (rs ss ts : List (Operation G)) → Moved rs ss → Moved ss ts → Moved rs ts
  Moved-trans [] [] [] h k = tt
  Moved-trans [] [] (t ∷ ts) h k = elim k [ ]
  Moved-trans [] (s ∷ ss) ts h k = elim h [ ]
  Moved-trans (r ∷ rs) [] ts h k = elim h [ ]
  Moved-trans (r ∷ rs) (s ∷ ss) [] h k = elim k [ ]
  Moved-trans (r ∷ rs) (s ∷ ss) (t ∷ ts) (e, p, h) (q, d, k) =
      (q ∙ e, StatePath-trans p d, Moved-trans rs ss ts h k)

  set_row-Moved :
      (id : Text) (from to : OperationState) (ts : Time) (r : Operation G)
      → transition_valid from to ≡ true
      → ((set_row id from to ts r).id ≡ r.id) × StatePath r.status (set_row id from to ts r).status
  set_row-Moved id from to ts r h = elim (Bool-cases (is_row id from r)) [
    | inl e ↦
        let same : r.status ≡ from = ground (arith, state_eq_iff r.status from) in
        rw e (refl, (to ∷ [], rw same (rw h refl), refl))
    | inr e ↦ rw e (refl, ([], refl, refl))
  ]

  set_rows-Moved :
      (id : Text) (from to : OperationState) (ts : Time) (rs : List (Operation G))
      → transition_valid from to ≡ true
      → Moved rs (set_rows id from to ts rs)
  set_rows-Moved id from to ts [] h = tt
  set_rows-Moved id from to ts (r ∷ rs) h =
      let (e, p) = set_row-Moved id from to ts r h in (e, p, set_rows-Moved id from to ts rs h)

module _ {G : Type 0} (env : Answers) where
  -- What a call leaves of the operations.
  abbrev Keeps : Server G → Server G → Type 0
  Keeps s s' = Moved s.operations s'.operations

  pub update_if_status-Moved :
      (op : Operation G) (from : OperationState) (s : Server G)
      → transition_valid from op.status ≡ true
      → Keeps s (update_if_status env op from s).1
  unfolding update_if_status
  update_if_status-Moved op from s h = elim (Option-cases (env.update_err s.calls)) [
    | inl e ↦ rw (e, update_if_status) (set_rows-Moved op.id from op.status _ s.operations h)
    | inr (x, e) ↦ rw (e, update_if_status) (Moved-refl s.operations)
  ]

  settled-Moved :
      (op : Operation G) (from : OperationState) (r : Result Bool × Server G) (s : Server G)
      → Keeps s r.1
      → Keeps s (settled env op from r).2
  settled-Moved op from (ok true, s') s h = h
  settled-Moved op from (ok false, s') s h = h
  settled-Moved op from (err e, s') s h = h

  pub transition_to-Moved :
      (op : Operation G) (to : OperationState) (s : Server G)
      → Keeps s (transition_to env op to s).2
  unfolding transition_to
  transition_to-Moved op to s = elim (Option-cases (try_transition_err op.status to)) [
    | inl e ↦
        rw (e, transition_to)
          (settled-Moved _ op.status _ s
            (update_if_status-Moved _ op.status s ((try_transition_err-none op.status to).0 e)))
    | inr (x, e) ↦ rw (e, transition_to) (Moved-refl s.operations)
  ]

  pub append_audit-operations :
      (op : Operation G) (st : OperationState) (by details : Text) (n : ℤ) (s : Server G)
      → (append_audit env op st by details n s).operations ≡ s.operations
  unfolding append_audit
  append_audit-operations op st by details n s = elim (Option-cases (env.audit_err s.calls)) [
    | inl e ↦ rw (e, append_audit) refl
    | inr (x, e) ↦ rw (e, append_audit) refl
  ]

  pub after_block-operations :
      (details : Text) (r : Operation G × Result Bool × Server G)
      → (after_block env details r).operations ≡ r.2.operations
  after_block-operations details (op, ok true, s) = append_audit-operations op blocked _ details _ s
  after_block-operations details (op, ok false, s) = refl
  after_block-operations details (op, err e, s) = refl

  after_fail-operations :
      (details : Text) (r : Operation G × Result Bool × Server G)
      → (after_fail env details r).operations ≡ r.2.operations
  after_fail-operations details (op, ok true, s) = append_audit-operations op failed _ details _ s
  after_fail-operations details (op, ok false, s) = refl
  after_fail-operations details (op, err e, s) = refl

  pub block_operation-Moved :
      (op : Operation G) (details : Text) (s : Server G)
      → Keeps s (block_operation env op details s)
  unfolding block_operation
  block_operation-Moved op details s =
      rw (after_block-operations details (transition_to env op blocked s))
        (transition_to-Moved op blocked s)

  pub fail_operation-Moved :
      (op : Operation G) (details : Text) (s : Server G) → Keeps s (fail_operation env op details s)
  unfolding fail_operation
  fail_operation-Moved op details s =
      rw (after_fail-operations details (transition_to env op failed s))
        (transition_to-Moved op failed s)

  block_all-Moved :
      (ops : List (Operation G)) (details : Text) (s : Server G)
      → Keeps s (block_all env ops details s)
  unfolding block_all
  block_all-Moved [] details s = Moved-refl s.operations
  block_all-Moved (op ∷ ops) details s =
      Moved-trans s.operations (block_operation env op details s).operations _
        (block_operation-Moved op details s)
        (block_all-Moved ops details (block_operation env op details s))

  pub list_by_status-operations :
      (st : OperationState) (s : Server G) → (list_by_status env st s).1.operations ≡ s.operations
  unfolding list_by_status
  list_by_status-operations st s = elim (Option-cases (env.list_err s.calls)) [
    | inl e ↦ rw (e, list_by_status) refl
    | inr (x, e) ↦ rw (e, list_by_status) refl
  ]

  -- A call that starts from the state that a listing left.
  abbrev StartsAt : Server G → Result (List (Operation G)) × Server G → Type 0
  StartsAt s r = r.1.operations ≡ s.operations

  disconnect_listed-Moved :
      (agent : Text) (s : Server G) (r : Result (List (Operation G)) × Server G)
      → StartsAt s r
      → Keeps s (disconnect_listed env agent r)
  disconnect_listed-Moved agent s (err e, s') h = rw h (Moved-refl s.operations)
  disconnect_listed-Moved agent s (ok ops, s') h =
      subst (λ rows. Moved rows (disconnect_listed env agent (ok ops, s')).operations) h
        (block_all-Moved (agents_ops env agent ops) _ s')

  reconcile_listed-Moved :
      (st : OperationState) (s : Server G) (r : Result (List (Operation G)) × Server G)
      → StartsAt s r
      → Keeps s (reconcile_listed env st r).1
  reconcile_listed-Moved st s (err e, s') h = rw h (Moved-refl s.operations)
  reconcile_listed-Moved st s (ok ops, s') h =
      subst (λ rows. Moved rows (reconcile_listed env st (ok ops, s')).1.operations) h
        (block_all-Moved ops _ s')

  pub handle_agent_disconnect-Moved :
      (agent : Text) (s : Server G) → Keeps s (handle_agent_disconnect env agent s)
  unfolding handle_agent_disconnect
  handle_agent_disconnect-Moved agent s =
      let s' = disconnect_listed env agent (list_by_status env scanning s) in
      Moved-trans s.operations s'.operations _
        (disconnect_listed-Moved agent s _ (list_by_status-operations scanning s))
        (disconnect_listed-Moved agent s' _ (list_by_status-operations executing s'))

  reconcile_next-Moved :
      (s : Server G) (r : Option Text × Server G) → Keeps s r.1 → Keeps s (reconcile_next env r).1
  reconcile_next-Moved s (some e, s') h = h
  reconcile_next-Moved s (none, s') h =
      Moved-trans s.operations s'.operations _ h
        (reconcile_listed-Moved executing s' _ (list_by_status-operations executing s'))

  pub reconcile_on_startup-Moved : (s : Server G) → Keeps s (reconcile_on_startup env s).1
  unfolding reconcile_on_startup
  reconcile_on_startup-Moved s =
      reconcile_next-Moved s _
        (reconcile_listed-Moved scanning s _ (list_by_status-operations scanning s))
