-- ===== src/Pitr/Operations/Reconcile.antt =====
-- What ReconcileOnStartup of internal/server/pitr/handler.go leaves.
use mysql_pitr.Base.{
  ℕ, ◌≡◌, refl, sym, ap, ◌∙◌, inl, inr, Bool, true, false, ◌&&◌, ◌||◌, List, [], ◌∷◌, Option, none,
  some, arith, keep, Bool-cases, if◌then◌else◌, All,
}
use mysql_pitr.Base.Text.{Text, text_eq, text_eq_refl}
use mysql_pitr.Base.Result.{Result, ok, err}
use mysql_pitr.Binlog.Types.{Time}
use mysql_pitr.Pitr.State.{
  OperationState, scanning, executing, blocked, state_eq, state_eq_iff, transition_valid,
  try_transition_err-none,
}
use mysql_pitr.Pitr.Operations.Moves.{after_block-operations}
use mysql_pitr.Pitr.Operations.{
  Operation, Server, Answers, is_row, set_rows, update_if_status, settled, transition_to,
  block_operation, list_by_status, block_all, reconcile_status, reconcile_next,
  reconcile_on_startup,
}

-- The identifiers and the states of the stored operations.
abbrev pub states : {G : Type 0} → List (Operation G) → List (Text × OperationState)
states [] = []
states (r ∷ rs) = (r.id, r.status) ∷ states rs

-- Every state that satisfies the test is `blocked` instead.
abbrev pub blocked_where :
    (Text × OperationState → Bool) → List (Text × OperationState) → List (Text × OperationState)
blocked_where p [] = []
blocked_where p (r ∷ rs) = (r.0, if p r then blocked else r.1) ∷ blocked_where p rs

-- The rows of the listed operations that are in the state `st`.
abbrev listed : {G : Type 0} → OperationState → List (Operation G) → Text × OperationState → Bool
listed st [] r = false
listed st (op ∷ ops) r = (text_eq r.0 op.id && state_eq r.1 st) || listed st ops r

-- Calls of the database that all succeed.
pub record NoErrors (env : Answers) : Type 0 where
  pub updates : (n : ℕ) → env.update_err n ≡ none
  pub lists : (n : ℕ) → env.list_err n ≡ none

states-set_rows :
    {G : Type 0} (id : Text) (st : OperationState) (ts : Time) (rs : List (Operation G))
    → states (set_rows id st blocked ts rs)
      ≡ blocked_where (λ r. text_eq r.0 id && state_eq r.1 st) (states rs)
states-set_rows id st ts [] = refl
states-set_rows id st ts (r ∷ rs) = elim (Bool-cases (is_row id st r)) [
  | inl e ↦ rw e (ap (◌∷◌ (r.id, blocked)) (states-set_rows id st ts rs))
  | inr e ↦ rw e (ap (◌∷◌ (r.id, r.status)) (states-set_rows id st ts rs))
]

-- Blocking twice.
blocked_where-twice :
    {G : Type 0} (st : OperationState) (op : Operation G) (ops : List (Operation G))
    (rs : List (Text × OperationState))
    → blocked_where (listed st ops) (blocked_where (λ r. text_eq r.0 op.id && state_eq r.1 st) rs)
      ≡ blocked_where (listed st (op ∷ ops)) rs
blocked_where-twice st op ops [] = refl
blocked_where-twice st op ops ((id, s) ∷ rs) =
    elim (Bool-cases (text_eq id op.id && state_eq s st)) [
      | inl e ↦ elim (Bool-cases (listed st ops (id, blocked))) [
        | inl l ↦ rw e (rw l (ap (◌∷◌ (id, blocked)) (blocked_where-twice st op ops rs)))
        | inr l ↦ rw e (rw l (ap (◌∷◌ (id, blocked)) (blocked_where-twice st op ops rs)))
      ]
      | inr e ↦ rw e (
          ap (◌∷◌ (id, if listed st ops (id, s) then blocked else s))
            (blocked_where-twice st op ops rs))
    ]

blocked_where-none : (rs : List (Text × OperationState)) → blocked_where (λ r. false) rs ≡ rs
blocked_where-none [] = refl
blocked_where-none ((id, s) ∷ rs) = ap (◌∷◌ (id, s)) (blocked_where-none rs)

-- A row in another state is not listed.
listed-other :
    {G : Type 0} (st : OperationState) (ops : List (Operation G)) (r : Text × OperationState)
    → state_eq r.1 st ≡ false
    → listed st ops r ≡ false
listed-other st [] r h = refl
listed-other st (op ∷ ops) r h = ground (arith, listed-other st ops r)

-- Whether the listed operations are all those in the state `st`, for a row.
abbrev Covers : {G : Type 0} → OperationState → List (Operation G) → Operation G → Type 0
Covers st ops r = listed st ops (r.id, r.status) ≡ state_eq r.status st

Covers-more :
    {G : Type 0} (st : OperationState) (op : Operation G) (ops rs : List (Operation G))
    → All (Covers st ops) rs
    → All (Covers st (op ∷ ops)) rs
Covers-more st op ops [] h = tt
Covers-more st op ops (r ∷ rs) h = (ground (arith, h.0), Covers-more st op ops rs h.1)

keep-Covers :
    {G : Type 0} (st : OperationState) (rs : List (Operation G))
    → All (Covers st (keep (λ r. state_eq r.status st) rs)) rs
keep-Covers st [] = tt
keep-Covers st (r ∷ rs) = by_test (state_eq r.status st) refl (keep-Covers st rs)
  where
    by_test :
        (b : Bool)
        → state_eq r.status st ≡ b
        → All (Covers st (keep (λ x. state_eq x.status st) rs)) rs
        → All
            (Covers st (
              if b
              then r ∷ keep (λ x. state_eq x.status st) rs
              else keep (λ x. state_eq x.status st) rs))
            (r ∷ rs)
    by_test true e ih = (
      ground (arith, text_eq_refl r.id, e),
      Covers-more st r (keep (λ r. state_eq r.status st) rs) rs ih,
    )
    by_test false e ih = (listed-other st _ (r.id, r.status) e ∙ sym e, ih)

blocked_where-Covers :
    {G : Type 0} (st : OperationState) (ops rs : List (Operation G))
    → All (Covers st ops) rs
    → blocked_where (listed st ops) (states rs) ≡ blocked_where (λ r. state_eq r.1 st) (states rs)
blocked_where-Covers st ops [] h = refl
blocked_where-Covers st ops (r ∷ rs) h = rw h.0 (
    ap (◌∷◌ (r.id, if state_eq r.status st then blocked else r.status))
      (blocked_where-Covers st ops rs h.1))

-- Blocking one state after the other.
both_blocked :
    (rs : List (Text × OperationState))
    → blocked_where (λ r. state_eq r.1 executing) (blocked_where (λ r. state_eq r.1 scanning) rs)
      ≡ blocked_where (λ r. state_eq r.1 scanning || state_eq r.1 executing) rs
unfolding state_eq
both_blocked [] = refl
both_blocked ((id, s) ∷ rs) = elim (Bool-cases (state_eq s scanning)) [
  | inl e ↦ rw e (ap (◌∷◌ (id, blocked)) (both_blocked rs))
  | inr e ↦ rw e (ap (◌∷◌ (id, if state_eq s executing then blocked else s)) (both_blocked rs))
]

module _ {G : Type 0} (env : Answers) (fine : NoErrors env) where
  settled-operations :
      (op : Operation G) (from : OperationState) (r : Result Bool × Server G)
      → (settled env op from r).2.operations ≡ r.1.operations
  settled-operations op from (ok true, s) = refl
  settled-operations op from (ok false, s) = refl
  settled-operations op from (err e, s) = refl

  update_if_status-states :
      (op : Operation G) (from : OperationState) (s : Server G)
      → op.status ≡ blocked
      → states (update_if_status env op from s).1.operations
        ≡ blocked_where (λ r. text_eq r.0 op.id && state_eq r.1 from) (states s.operations)
  unfolding update_if_status
  update_if_status-states op from s h =
      rw (fine.updates s.calls, update_if_status) (rw h (states-set_rows op.id from _ s.operations))

  transition_to-states :
      (op : Operation G) (s : Server G)
      → transition_valid op.status blocked ≡ true
      → states (transition_to env op blocked s).2.operations
        ≡ blocked_where (λ r. text_eq r.0 op.id && state_eq r.1 op.status) (states s.operations)
  unfolding transition_to
  transition_to-states op s h =
      let op' : Operation G = record op { status = blocked; updated_at = env.now s.calls } in
      rw ((try_transition_err-none op.status blocked).1 h, transition_to)
        (ap states (settled-operations op' op.status (update_if_status env op' op.status s))
          ∙ update_if_status-states op' op.status s refl)

  block_all-states :
      (st : OperationState) (ops : List (Operation G)) (details : Text) (s : Server G)
      → transition_valid st blocked ≡ true
      → All (λ op. op.status ≡ st) ops
      → states (block_all env ops details s).operations
        ≡ blocked_where (listed st ops) (states s.operations)
  unfolding block_all block_operation
  block_all-states st [] details s h a = sym (blocked_where-none (states s.operations))
  block_all-states st (op ∷ ops) details s h a =
      block_all-states st ops details (block_operation env op details s) h a.1
      ∙ ap (blocked_where (listed st ops)) (
          ap states (after_block-operations env details (transition_to env op blocked s))
          ∙ transition_to-states op s (rw a.0 h)
          ∙ ap (λ x. blocked_where (λ r. text_eq r.0 op.id && state_eq r.1 x) (states s.operations))
              a.0)
      ∙ blocked_where-twice st op ops (states s.operations)

  keep-states :
      (st : OperationState) (rs : List (Operation G))
      → All (λ op. op.status ≡ st) (keep (λ r. state_eq r.status st) rs)
  keep-states st [] = tt
  keep-states st (r ∷ rs) = elim (Bool-cases (state_eq r.status st)) [
    | inl e ↦ rw e ((state_eq_iff r.status st).0 e, keep-states st rs)
    | inr e ↦ rw e (keep-states st rs)
  ]

  reconcile_status-states :
      (st : OperationState) (s : Server G)
      → transition_valid st blocked ≡ true
      → ((reconcile_status env st s).0 ≡ none)
        × (states (reconcile_status env st s).1.operations
            ≡ blocked_where (λ r. state_eq r.1 st) (states s.operations))
  unfolding list_by_status
  reconcile_status-states st s h =
      let kept = keep (λ (r : Operation G). state_eq r.status st) s.operations in
      rw (fine.lists s.calls, list_by_status)
        (
          refl,
          block_all-states st kept _ _ h (keep-states st s.operations)
              ∙ blocked_where-Covers st kept s.operations (keep-Covers st s.operations),
        )

  reconcile_next-states :
      (s s' : Server G) (r : Option Text × Server G)
      → r.0 ≡ none
      → r.1 ≡ s'
      → reconcile_next env r ≡ reconcile_status env executing s'
  reconcile_next-states s s' (none, t) e q = ap (reconcile_status env executing) q
  reconcile_next-states s s' (some x, t) e q = cc

  -- Where no call of the database fails, the reconciliation ends without an error and blocks every
  -- stored operation that was scanning or executing; all other operations keep their state.
  pub reconcile_on_startup-states :
      (s : Server G)
      → ((reconcile_on_startup env s).0 ≡ none)
        × (states (reconcile_on_startup env s).1.operations
            ≡ blocked_where
                (λ r. state_eq r.1 scanning || state_eq r.1 executing)
                (states s.operations))
  unfolding reconcile_on_startup transition_valid
  reconcile_on_startup-states s =
      let s' = (reconcile_status env scanning s).1 in
      let (e, q) = reconcile_status-states scanning s refl in
      let (e', q') = reconcile_status-states executing s' refl in
      rw (reconcile_next-states s s' (reconcile_status env scanning s) e refl) (
        e',
        q'
            ∙ ap (blocked_where (λ r. state_eq r.1 executing)) q
            ∙ both_blocked (states s.operations),
      )
