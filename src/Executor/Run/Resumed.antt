-- ===== src/Executor/Run/Resumed.antt =====
-- `Resume` of internal/executor/executor.go after an interrupted `Run`.
use mathlib.Core.Path.{subst}
use mathlib.Core.Option.{some-injective}
use mysql_pitr.Base.{
  ℕ, ◌≤◌, ◌<◌, ◌≡◌, ◌⊎◌, inl, inr, refl, ap, sym, ◌∙◌, Bool, Option, none, some, List, ◌++◌, length,
  le→ltb-false, zero, suc,
}
use mysql_pitr.Base.Int.{pos}
use mysql_pitr.Base.Result.{Result-cases}
use mysql_pitr.Executor.Types.{Plan, Env, World, found}
use mysql_pitr.Executor.Run.{Loop, Outcome, run, resume, resume_from, normalize_plan, start_index}
use mysql_pitr.Executor.Run.Trace.{Ran, committed_of}
use mysql_pitr.Executor.Run.Rounds.{Ends, same-Commits}
use mysql_pitr.Executor.Run.Total.{
  Refused, Returns, begin, Ends-trans, normalize_plan-pos, run_from_index-Returns, run-Returns,
}
use mysql_pitr.Executor.Run.Stored.{KeepsCheckpoints, Leaves, final_checkpoint, run-Leaves}

-- An outcome without an error accounts for what it committed.
ended :
    {S : Type 0} {plan : Plan} {l : Loop S} {r : Option (Outcome S)} (o : Outcome S)
    → Returns plan l r
    → r ≡ some o
    → o.error ≡ none
    → (rs : List Ran) × Ends plan l o rs
ended {plan = plan} {l = l} o (o', e, inl (rs, q)) h ne =
    (rs, subst (λ x. Ends plan l x rs) (some-injective o' o (sym e ∙ h)) q)
ended o (o', e, inr q) h ne =
    absurd (q.failed (ap (λ (x : Outcome _). x.error) (some-injective o' o (sym e ∙ h)) ∙ ne))

start_index_pos :
    {S : Type 0} (plan : Plan) (o : Outcome S)
    → start_index (final_checkpoint plan o) ≡ o.report.done
start_index_pos plan o = by_cases o.report.done
  where
    by_cases :
        (n : ℕ)
        → start_index (record (final_checkpoint plan o) { last_completed_statement = pos n }) ≡ n
    by_cases zero = refl
    by_cases (suc n) = refl

module _ {S : Type 0} (env : Env S) (plan : Plan) (size : ℕ) (has_cb : Bool) where
  resume_from-Returns :
      (l : Loop S)
      → 0 < size
      → l.completed ≤ length plan.statements
      → Returns plan l (resume_from env plan size has_cb l)
  unfolding resume_from
  resume_from-Returns l positive b =
      rw (le→ltb-false (length plan.statements) l.completed b, resume_from)
        (run_from_index-Returns env plan size has_cb positive l b)

-- The loop state that an outcome leaves, in the world `w`.
abbrev continue : {S : Type 0} → Outcome S → World S → Loop S
continue o w = record {
  completed = o.report.done;
  errs = o.report.errors;
  rows = o.report.rows_affected;
  world = w;
}

module _ {S : Type 0} (env : Env S) (plan : Plan) (has_cb : Bool) where
  resume-found :
      (w : World S) (o : Outcome S)
      → env.load plan.operation_id w.store ≡ found (final_checkpoint plan o)
      → o.report.done ≤ length plan.statements
      → Returns plan (continue o w) (resume env plan has_cb w)
  unfolding resume
  resume-found w o h b = elim (Result-cases (normalize_plan plan)) [
    | inl (size, n) ↦
        rw (n, resume)
          (rw h (
            rw (start_index_pos plan o) (
              resume_from-Returns env plan size has_cb (continue o w) (normalize_plan-pos plan n)
                b)))
    | inr (x, n) ↦
        rw (n, resume) (_, refl, inr (record { empty = refl; failed = λ q. cc; untouched = refl }))
  ]

-- A `Run` that ended without an error, then a `Resume` of the same plan on the store that it left,
-- with whatever database: both together commit exactly the statements of the plan before the
-- second report's `done`, each once and in order, and that report's errors and row count are those
-- of all these statements; or the `Resume` is refused and commits nothing.
pub run-resume :
    {S : Type 0} (env later : Env S) (plan : Plan) (has_cb cb_later : Bool) (w v : World S)
    (o : Outcome S)
    → KeepsCheckpoints env
    → run env plan has_cb w ≡ some o
    → o.error ≡ none
    → v.store ≡ o.world.store
    → committed_of v.history ≡ committed_of o.world.history
    → later.load plan.operation_id v.store ≡ env.load plan.operation_id v.store
    → (p : Outcome S) × (resume later plan cb_later v ≡ some p)
      × (((rs : List Ran) × Ends plan (begin 0 w) p rs) ⊎ Refused v.history p)
run-resume env later plan has_cb cb_later w v o keeps ran ne es eh el =
    let (rs, first) = ended o (run-Returns env plan has_cb w) ran ne in
    let left = subst (Leaves env keeps plan) ran (run-Leaves env keeps plan has_cb w) ne in
    let loaded = el ∙ ap (env.load plan.operation_id) es ∙ left in
    join rs first (resume-found later plan cb_later v o loaded first.accounted.to)
  where
    join :
        (rs : List Ran)
        → Ends plan (begin 0 w) o rs
        → Returns plan (continue o v) (resume later plan cb_later v)
        → (p : Outcome _) × (resume later plan cb_later v ≡ some p)
          × (((rs : List Ran) × Ends plan (begin 0 w) p rs) ⊎ Refused v.history p)
    join rs first (p, e, inl (ss, second)) = (
      p,
      e,
      inl (rs ++ ss, Ends-trans rs ss (same-Commits v.history rs eh first.accounted) second),
    )
    join rs first (p, e, inr refused) = (p, e, inr refused)
