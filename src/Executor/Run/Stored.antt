-- ===== src/Executor/Run/Stored.antt =====
-- The checkpoint that a run of internal/executor/executor.go leaves in a store which keeps what it
-- saves.
use mysql_pitr.Base.{
  ℕ, zero, suc, ◌≡◌, inl, inr, refl, Bool, false, Option, none, some, List, [], ◌∷◌, Bool-cases,
  Option-cases, ltb, length,
}
use mathlib.Core.Option
use mathlib.Core.Path.{subst}
use mysql_pitr.Base.Int.{pos}
use mysql_pitr.Base.Result.{Result-cases}
use mysql_pitr.Reverse.Types.{Statement}
use mysql_pitr.Executor.Types.{Plan, Env, World, Checkpoint, found, checked, opened}
use mysql_pitr.Executor.Run.{
  Batch, Loop, Outcome, Step, stop, go, observe, exec_batch, save_progress, finish_batch, iteration,
  run_loop, run_from_index, run, normalize_plan, checkpoint_of, close_db, initial_checkpoint,
}
use mysql_pitr.Executor.Run.Batches.{exec_batch-Sends}
use mysql_pitr.Executor.Run.Total.{begin}

-- What the executor relies on: a checkpoint that was saved is the one that is loaded.
pub record KeepsCheckpoints {S : Type 0} (env : Env S) : Type 0 where
  pub load_saved :
      (c : Checkpoint) (s : S)
      → (env.save c s).1 ≡ none
      → env.load c.operation_id (env.save c s).0 ≡ found c

-- The checkpoint of an ended run.
abbrev pub final_checkpoint : {S : Type 0} → Plan → Outcome S → Checkpoint
final_checkpoint plan o = record {
  operation_id = plan.operation_id;
  last_completed_statement = pos o.report.done;
  total = length plan.statements;
  rows_affected = o.report.rows_affected;
  errors = o.report.errors;
}

module _ {S : Type 0} (env : Env S) (keeps : KeepsCheckpoints env) (plan : Plan) where
  abbrev Holds : S → Checkpoint → Type 0
  Holds s c = env.load plan.operation_id s ≡ found c

  -- A round leaves the checkpoint of the state that it ends in, unless it fails.
  abbrev Keeps : Step S → Type 0
  Keeps (stop o) = o.error ≡ none → Holds o.world.store (final_checkpoint plan o)
  Keeps (go m) = Holds m.world.store (checkpoint_of plan m)

  save_progress-Keeps : (has_cb : Bool) (m : Loop S) → Keeps (save_progress env plan has_cb m)
  unfolding save_progress
  save_progress-Keeps has_cb m =
      elim (Option-cases (env.save (checkpoint_of plan m) m.world.store).1) [
        | inl e ↦
            let kept = keeps.load_saved (checkpoint_of plan m) m.world.store e in
            elim (Bool-cases has_cb) [
              | inl b ↦ rw (e, save_progress) (rw b kept)
              | inr b ↦ rw (e, save_progress) (rw b kept)
            ]
        | inr (x, e) ↦ rw (e, save_progress) (λ q. cc)
      ]

  finish_batch-Keeps :
      (has_cb : Bool) (l : Loop S) (to : ℕ) (b : Batch S)
      → Holds b.world.store (checkpoint_of plan l)
      → Keeps (finish_batch env plan has_cb l to b)
  unfolding finish_batch
  finish_batch-Keeps has_cb l to b h = elim (Bool-cases b.aborted) [
    | inl a ↦ rw (a, finish_batch) (λ q. h)
    | inr a ↦ elim (Option-cases (env.commit_err b.world.history)) [
      | inl e ↦ rw (a, finish_batch) (rw e (save_progress-Keeps has_cb _))
      | inr (x, e) ↦ rw (a, finish_batch) (rw e (λ q. cc))
    ]
  ]

  batch-Holds :
      (l : Loop S) (sts : List Statement) (w : World S)
      → Holds w.store (checkpoint_of plan l)
      → Holds
          (exec_batch env l.completed sts
            (record { errs = []; rows = 0; aborted = false; world = w })).world.store
          (checkpoint_of plan l)
  batch-Holds l sts w h =
      let (rs, p, k) =
        exec_batch-Sends env l.completed sts
          (record { errs = []; rows = 0; aborted = false; world = w }) refl in
      rw p.store h

  iteration-Keeps :
      (size : ℕ) (has_cb : Bool) (l : Loop S)
      → Holds l.world.store (checkpoint_of plan l)
      → Keeps (iteration env plan size has_cb l)
  unfolding iteration
  iteration-Keeps size has_cb l h = elim (Bool-cases (env.is_cancelled l.world.history)) [
    | inl c ↦ rw (c, iteration) (λ q. h)
    | inr c ↦ elim (Option-cases (env.begin_err (checked false ∷ l.world.history))) [
      | inl e ↦ rw (c, iteration) (rw e (finish_batch-Keeps has_cb l _ _ (batch-Holds l _ _ h)))
      | inr (x, e) ↦ rw (c, iteration) (rw e (λ q. cc))
    ]
  ]

  -- Of a call's result: unless it failed, the store holds the checkpoint of its report.
  abbrev pub Leaves : Option (Outcome S) → Type 0
  Leaves none = Unit
  Leaves (some o) = o.error ≡ none → Holds o.world.store (final_checkpoint plan o)

  run_loop-Leaves :
      (size : ℕ) (has_cb : Bool) (fuel : ℕ) (l : Loop S)
      → Holds l.world.store (checkpoint_of plan l)
      → Leaves (run_loop env fuel plan size has_cb l)
  unfolding run_loop
  run_loop-Leaves size has_cb zero l h = tt
  run_loop-Leaves size has_cb (suc fuel) l h =
      elim (Bool-cases (ltb l.completed (length plan.statements))) [
        | inl e ↦
            rw (e, run_loop)
              (after (run_loop-Leaves size has_cb fuel) (iteration env plan size has_cb l)
                (iteration-Keeps size has_cb l h))
        | inr e ↦ rw (e, run_loop) (λ q. h)
      ]
    where
      after :
          ((m : Loop S)
            → Holds m.world.store (checkpoint_of plan m)
            → Leaves (run_loop env fuel plan size has_cb m))
          → (s : Step S) → Keeps s
          → Leaves (elim s [ stop o ↦ some o | go m ↦ run_loop env fuel plan size has_cb m ])
      after ih (stop o) k = k
      after ih (go m) k = ih m k

  Leaves-close : (r : Option (Outcome S)) → Leaves r → Leaves (Option.map close_db r)
  Leaves-close none h = tt
  Leaves-close (some o) h = h

  pub run_from_index-Leaves :
      (size : ℕ) (has_cb : Bool) (l : Loop S)
      → Holds l.world.store (checkpoint_of plan l)
      → Leaves (run_from_index env plan size has_cb l)
  unfolding run_from_index
  run_from_index-Leaves size has_cb l h = elim (Option-cases (env.open_err l.world.history)) [
    | inl e ↦
        rw (e, run_from_index)
          (Leaves-close _
            (run_loop-Leaves size has_cb _ (record l { world = observe opened l.world }) h))
    | inr (x, e) ↦ rw (e, run_from_index) (λ q. cc)
  ]

  pub run-Leaves : (has_cb : Bool) (w : World S) → Leaves (run env plan has_cb w)
  unfolding run
  run-Leaves has_cb w = elim (Result-cases (normalize_plan plan)) [
    | inl (size, n) ↦
        let s1 = (env.clear plan.operation_id w.store).0 in
        elim (Option-cases (env.save (initial_checkpoint plan) s1).1) [
          | inl e ↦
              rw (n, run)
                (rw e (
                  run_from_index-Leaves size has_cb
                    (begin 0 (record w { store = (env.save (initial_checkpoint plan) s1).0 }))
                    (keeps.load_saved (initial_checkpoint plan) s1 e)))
          | inr (x, e) ↦ rw (n, run) (rw e (λ q. cc))
        ]
    | inr (x, n) ↦ rw (n, run) (λ q. cc)
  ]

-- In a store that keeps what it saves, a run that ends without an error, paused or done, leaves the
-- checkpoint of its report.
pub run-final_checkpoint :
    {S : Type 0} (env : Env S) (plan : Plan) (has_cb : Bool) (w : World S) (o : Outcome S)
    → KeepsCheckpoints env
    → run env plan has_cb w ≡ some o
    → o.error ≡ none
    → env.load plan.operation_id o.world.store ≡ found (final_checkpoint plan o)
run-final_checkpoint env plan has_cb w o keeps ran ne =
    subst (Leaves env keeps plan) ran (run-Leaves env keeps plan has_cb w) ne
