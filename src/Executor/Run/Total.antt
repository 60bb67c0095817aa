-- ===== src/Executor/Run/Total.antt =====
-- `Run` of internal/executor/executor.go from start to end.
use mysql_pitr.Base.{
  ℕ, zero, suc, ◌-◌, ◌≤◌, ◌<◌, ◌≡◌, ◌≢◌, ◌⊎◌, inl, inr, refl, Bool, Option, none, some, List, [],
  ◌++◌, arith, Bool-cases, Option-cases, ltb, length,
}
use mysql_pitr.Base.Result.{Result-cases, ok}
use mysql_pitr.Executor.Types.{Plan, Event, Env, World, opened}
use mysql_pitr.Executor.Run.{
  Loop, Outcome, Step, stop, go, run_loop, run_from_index, run, normalize_plan, close_db, observe,
  no_report, initial_checkpoint,
}
use mysql_pitr.Executor.Run.Trace.{Ran, committed_of}
use mysql_pitr.Executor.Run.Rounds.{
  Commits, Ends, Rounds, Commits-trans, idle, same-Commits, iteration-Rounds,
}

pub normalize_plan-pos : (plan : Plan) {size : ℕ} → normalize_plan plan ≡ ok size → 0 < size
unfolding normalize_plan
normalize_plan-pos plan h = ground arith

pub Ends-trans :
    {S : Type 0} {plan : Plan} {l m : Loop S} {o : Outcome S} (rs ss : List Ran)
    → Commits plan l m.completed m.errs m.rows m.world.history rs
    → Ends plan m o ss
    → Ends plan l o (rs ++ ss)
Ends-trans rs ss p q = record {
  accounted = Commits-trans rs ss p q.accounted;
  total = q.total;
  why = q.why;
}

-- The step of the induction: a round that ends the loop, or goes on to a loop that ends.
abbrev Ended : {S : Type 0} → Plan → Loop S → Option (Outcome S) → Type 0
Ended {S} plan l r = (o : Outcome S) × (r ≡ some o) × (ss : List Ran) × Ends plan l o ss

module _ {S : Type 0} (env : Env S) (plan : Plan) (size : ℕ) (has_cb : Bool) (pos : 0 < size) where
  -- With more fuel than statements are left, the loop ends.
  run_loop-Ends :
      (fuel : ℕ) (l : Loop S)
      → length plan.statements - l.completed < fuel
      → l.completed ≤ length plan.statements
      → Ended plan l (run_loop env fuel plan size has_cb l)
  unfolding run_loop
  run_loop-Ends zero l f b = absurd (omega arith)
  run_loop-Ends (suc fuel) l f b = elim (Bool-cases (ltb l.completed (length plan.statements))) [
    | inl e ↦
        rw (e, run_loop)
          (after (run_loop-Ends fuel) _
            (iteration-Rounds env plan size has_cb l pos (ground arith)))
    | inr e ↦
        rw (e, run_loop)
          (
            _,
            refl,
            [],
            record {
              accounted = idle plan l _ b refl;
              total = refl;
              why = inr (inr (ground arith));
            },
          )
  ]
    where
      after :
          ((m : Loop S)
            → length plan.statements - m.completed < fuel
            → m.completed ≤ length plan.statements
            → Ended plan m (run_loop env fuel plan size has_cb m))
          → (s : Step S) → (ss : List Ran) × Rounds plan l s ss
          → Ended plan l (elim s [ stop o ↦ some o | go m ↦ run_loop env fuel plan size has_cb m ])
      after ih (stop o) (ss, r) = (o, refl, ss, r)
      after ih (go m) (rs, (c, lt)) =
          let (o, e, ss, r) = ih m (omega (arith, c.to)) c.to in
          (o, e, rs ++ ss, Ends-trans rs ss c r)

-- A call that was refused before its first batch: `FinalReport{}`, an error, and no commit.
pub record Refused {S : Type 0} (h : List Event) (o : Outcome S) : Type 0 where
  pub empty : o.report ≡ no_report
  pub failed : o.error ≢ none
  pub untouched : committed_of o.world.history ≡ committed_of h

-- The loop state that a call starts from, in the world `w`.
abbrev pub begin : {S : Type 0} → ℕ → World S → Loop S
begin i w = record { completed = i; errs = []; rows = 0; world = w }

-- A call ends with a report for what it committed, or is refused.
abbrev pub Returns : {S : Type 0} → Plan → Loop S → Option (Outcome S) → Type 0
Returns {S} plan l r =
    (o : Outcome S) × (r ≡ some o)
    × (((rs : List Ran) × Ends plan l o rs) ⊎ Refused l.world.history o)

-- `Ends` does not look at the store of the world that it starts from.
Ends-store :
    {S : Type 0} {plan : Plan} {l : Loop S} {o : Outcome S} {rs : List Ran} (h : List Event) (s : S)
    → committed_of h ≡ committed_of l.world.history
    → Ends plan (record l { world = record { history = h; store = s } }) o rs
    → Ends plan l o rs
Ends-store h s e r = record {
  accounted = record {
    from = r.accounted.from;
    to = r.accounted.to;
    commits = rw (← e) r.accounted.commits;
    sent = r.accounted.sent;
    errors = r.accounted.errors;
    counted = r.accounted.counted;
  };
  total = r.total;
  why = r.why;
}

-- Closing the database adds no commit.
Ends-close :
    {S : Type 0} {plan : Plan} {l : Loop S} {o : Outcome S} {rs : List Ran}
    → Ends plan l o rs
    → Ends plan l (close_db o) rs
Ends-close {rs = rs} r = record {
  accounted = same-Commits _ rs refl r.accounted;
  total = r.total;
  why = r.why;
}

module _ {S : Type 0} (env : Env S) (plan : Plan) (size : ℕ) (has_cb : Bool) (pos : 0 < size) where
  pub run_from_index-Returns :
      (l : Loop S)
      → l.completed ≤ length plan.statements
      → Returns plan l (run_from_index env plan size has_cb l)
  unfolding run_from_index
  run_from_index-Returns l b = elim (Option-cases (env.open_err l.world.history)) [
    | inl e ↦
        let m : Loop S = record l { world = observe opened l.world } in
        let (o, ran, rs, r) =
          run_loop-Ends env plan size has_cb pos (suc (length plan.statements - l.completed)) m
            (omega arith) b in
        rw (e, run_from_index)
          (close_db o, rw ran, inl (rs, Ends-close (Ends-store _ l.world.store refl r)))
    | inr (x, e) ↦
        rw (e, run_from_index)
          (_, refl, inr (record { empty = refl; failed = λ q. cc; untouched = refl }))
  ]

-- A store that was written does not change what a call returns for its world.
Returns-store :
    {S : Type 0} {plan : Plan} {l : Loop S} {r : Option (Outcome S)} (s : S)
    → Returns plan (record l { world = record l.world { store = s } }) r
    → Returns plan l r
Returns-store {l = l} s (o, e, inl (rs, q)) =
    (o, e, inl (rs, Ends-store {l = l} l.world.history s refl q))
Returns-store s (o, e, inr q) =
    (o, e, inr (record { empty = q.empty; failed = q.failed; untouched = q.untouched }))

module _ {S : Type 0} (env : Env S) (plan : Plan) (has_cb : Bool) (w : World S) where
  run-sized :
      (size : ℕ) → normalize_plan plan ≡ ok size → Returns plan (begin 0 w) (run env plan has_cb w)
  unfolding run
  run-sized size n =
      let s1 = (env.clear plan.operation_id w.store).0 in
      let saved = env.save (initial_checkpoint plan) s1 in
      let l : Loop S = begin 0 (record w { store = saved.0 }) in
      elim (Option-cases saved.1) [
        | inl e ↦
            rw (n, run)
              (rw e (
                Returns-store saved.0 (
                  run_from_index-Returns env plan size has_cb (normalize_plan-pos plan n) l
                    (omega arith))))
        | inr (x, e) ↦
            rw (n, run)
              (rw e (_, refl, inr (record { empty = refl; failed = λ q. cc; untouched = refl })))
      ]

  -- Whatever the database, the context and the store answer, `Run` returns. Its transactions
  -- committed exactly the statements of the plan before `done`, each once and in order, and its
  -- errors and its row count are those of these statements; or it was refused before its first
  -- batch, and nothing was committed.
  pub run-Returns : Returns plan (begin 0 w) (run env plan has_cb w)
  unfolding run
  run-Returns = elim (Result-cases (normalize_plan plan)) [
    | inl (size, n) ↦ run-sized size n
    | inr (x, n) ↦
        rw (n, run) (_, refl, inr (record { empty = refl; failed = λ q. cc; untouched = refl }))
  ]
