-- ===== src/Executor/Run/Rounds.antt =====
-- The outer loop of internal/executor/executor.go: what is committed, round by round.

use mysql_pitr.Base.{
  ℕ, ◌+◌, ◌-◌, ◌%◌, ◌^◌, ◌≤◌, ◌<◌, ◌≡◌, ◌≢◌, ◌⊎◌, inl, inr, refl, ◌∙◌, sym, Bool, true, false, none,
  List, [], ◌∷◌, ◌++◌, arith, append_assoc, append-nil, Bool-cases, Option-cases, length, take,
  drop,
}
use mysql_pitr.Executor.Types.{ExecError, Plan, Event, Env, World, committed, checked}
use mysql_pitr.Executor.Run.{
  Batch, Loop, Outcome, Step, stop, go, exec_batch, save_progress, finish_batch, iteration,
  batch_end, checkpoint_of, add64,
}
use mysql_pitr.Executor.Run.Trace.{
  Ran, open_of, committed_of, range, range-append, keys, failures, total_rows, keys-append,
  failures-append, total_rows-append,
}
use mysql_pitr.Executor.Run.Batches.{exec_batch-Sends}

-- From the loop state `l` on, exactly the statements `rs` were committed: those of the plan from
-- `l.completed` up to `done`, each once and in order, and `errs` and `rows` account for them.
pub record Commits {S : Type 0} (plan : Plan) (l : Loop S) (done : ℕ) (errs : List ExecError)
    (rows : ℕ) (h : List Event) (rs : List Ran) : Type 0 where
  pub from : l.completed ≤ done
  pub to : done ≤ length plan.statements
  pub commits : committed_of h ≡ committed_of l.world.history ++ rs
  pub sent : keys rs ≡ range plan.statements l.completed done
  pub errors : errs ≡ l.errs ++ failures rs
  pub counted : rows % 2 ^ 64 ≡ (l.rows + total_rows rs) % 2 ^ 64

pub Commits-trans :
    {S : Type 0} {plan : Plan} {l m : Loop S} {done : ℕ} {errs : List ExecError} {rows : ℕ}
    {h : List Event} (rs ss : List Ran)
    → Commits plan l m.completed m.errs m.rows m.world.history rs
    → Commits plan m done errs rows h ss
    → Commits plan l done errs rows h (rs ++ ss)
Commits-trans {plan = plan} {l = l} {m = m} {done = done} rs ss p q = record {
  from = omega (arith, p.from, q.from);
  to = q.to;
  commits = rw (q.commits, p.commits) (append_assoc (committed_of l.world.history) rs ss);
  sent =
      rw (keys-append rs ss, p.sent, q.sent)
        (range-append plan.statements l.completed m.completed done p.from q.from p.to);
  errors =
      rw (q.errors, p.errors, failures-append rs ss)
        (append_assoc l.errs (failures rs) (failures ss));
  counted = omega (arith, p.counted, q.counted, total_rows-append rs ss);
}

-- Nothing was committed.
abbrev pub CommitsNothing : {S : Type 0} (plan : Plan) (l : Loop S) (h : List Event) → Type 0
CommitsNothing plan l h = Commits plan l l.completed l.errs l.rows h []

pub idle :
    {S : Type 0} (plan : Plan) (l : Loop S) (h : List Event)
    → l.completed ≤ length plan.statements
    → committed_of h ≡ committed_of l.world.history
    → CommitsNothing plan l h
idle plan l h b e = record {
  from = omega arith;
  to = b;
  commits = e ∙ sym (append-nil (committed_of l.world.history));
  sent = let z : l.completed - l.completed ≡ 0 = omega arith in rw z;
  errors = sym (append-nil l.errs);
  counted = omega arith;
}

-- What a loop ends with: it was paused, or failed, or all statements are done.
pub record Ends {S : Type 0} (plan : Plan) (l : Loop S) (o : Outcome S) (rs : List Ran)
    : Type 0 where
  pub accounted :
      Commits plan l o.report.done o.report.errors o.report.rows_affected o.world.history rs
  pub total : o.report.total ≡ length plan.statements
  pub why : (o.report.paused ≡ true) ⊎ ((o.error ≢ none) ⊎ (o.report.done ≡ length plan.statements))

-- A round ends the loop, or commits a batch that is not empty.
abbrev pub Rounds : {S : Type 0} → Plan → Loop S → Step S → List Ran → Type 0
Rounds plan l (stop o) rs = Ends plan l o rs
Rounds plan l (go m) rs =
    Commits plan l m.completed m.errs m.rows m.world.history rs × (l.completed < m.completed)

-- `Commits` sees of a history only what it commits.
pub same-Commits :
    {S : Type 0} {plan : Plan} {l : Loop S} {done : ℕ} {errs : List ExecError} {rows : ℕ}
    {h : List Event} (k : List Event) (rs : List Ran)
    → committed_of k ≡ committed_of h
    → Commits plan l done errs rows h rs
    → Commits plan l done errs rows k rs
same-Commits k rs e c = record {
  from = c.from;
  to = c.to;
  commits = e ∙ c.commits;
  sent = c.sent;
  errors = c.errors;
  counted = c.counted;
}

module _ {S : Type 0} (env : Env S) (plan : Plan) where
  save_progress-Rounds :
      (has_cb : Bool) (l m : Loop S) (rs : List Ran)
      → Commits plan l m.completed m.errs m.rows m.world.history rs
      → l.completed < m.completed
      → Rounds plan l (save_progress env plan has_cb m) rs
  unfolding save_progress
  save_progress-Rounds has_cb l m rs c h =
      elim (Option-cases (env.save (checkpoint_of plan m) m.world.store).1) [
        | inl e ↦ elim (Bool-cases has_cb) [
          | inl b ↦ rw (e, save_progress) (rw b (same-Commits _ rs refl c, h))
          | inr b ↦ rw (e, save_progress) (rw b (same-Commits _ rs refl c, h))
        ]
        | inr (x, e) ↦
            rw (e, save_progress)
              (record { accounted = c; total = refl; why = inr (inl (λ q. cc)) })
      ]

  -- A batch that starts with an empty transaction is committed whole, or not at all.
  finish_batch-Rounds :
      (has_cb : Bool) (l : Loop S) (to : ℕ) (b : Batch S) (rs : List Ran)
      → l.completed < to
      → to ≤ length plan.statements
      → committed_of b.world.history ≡ committed_of l.world.history
      → open_of b.world.history ≡ rs
      → b.errs ≡ failures rs
      → b.rows % 2 ^ 64 ≡ total_rows rs % 2 ^ 64
      → (b.aborted ≡ false → keys rs ≡ range plan.statements l.completed to)
      → (ss : List Ran) × Rounds plan l (finish_batch env plan has_cb l to b) ss
  unfolding finish_batch
  finish_batch-Rounds has_cb l to b rs lt le hc ho he hr hk = elim (Bool-cases b.aborted) [
    | inl a ↦
        rw (a, finish_batch)
          ([], record { accounted = idle plan l _ (omega arith) hc; total = refl; why = inl refl })
    | inr a ↦ elim (Option-cases (env.commit_err b.world.history)) [
      | inl e ↦
          rw (a, finish_batch) (rw e (rs, save_progress-Rounds has_cb l _ rs (accounted a) lt))
      | inr (x, e) ↦
          rw (a, finish_batch)
            (rw e (
              [],
              record {
                accounted = idle plan l _ (omega arith) hc;
                total = refl;
                why = inr (inl (λ q. cc));
              },
            ))
    ]
  ]
    where
      accounted :
          b.aborted ≡ false
          → Commits plan l to
              (l.errs ++ b.errs)
              (add64 l.rows b.rows)
              (committed ∷ b.world.history)
              rs
      accounted a = record {
        from = omega arith;
        to = le;
        commits = rw (hc, ho);
        sent = hk a;
        errors = rw he;
        counted = omega (arith, hr);
      }

  batch-Rounds :
      (has_cb : Bool) (l : Loop S) (to : ℕ) (w : World S)
      → l.completed < to
      → to ≤ length plan.statements
      → committed_of w.history ≡ committed_of l.world.history
      → open_of w.history ≡ []
      → (ss : List Ran) × Rounds plan l
          (finish_batch env plan has_cb l to (
            exec_batch env l.completed
              (take (to - l.completed) (drop l.completed plan.statements))
              (record { errs = []; rows = 0; aborted = false; world = w })))
          ss
  batch-Rounds has_cb l to w lt le hc ho =
      let (rs, p, k) =
        exec_batch-Sends env l.completed
          (take (to - l.completed) (drop l.completed plan.statements))
          (record { errs = []; rows = 0; aborted = false; world = w }) refl in
      finish_batch-Rounds has_cb l to _ rs lt le (p.commits ∙ hc) (rw ho at p.opens) p.errors
        (omega (arith, p.rows)) k

  pub iteration-Rounds :
      (size : ℕ) (has_cb : Bool) (l : Loop S)
      → 0 < size
      → l.completed < length plan.statements
      → (ss : List Ran) × Rounds plan l (iteration env plan size has_cb l) ss
  unfolding iteration
  iteration-Rounds size has_cb l pos lt = elim (Bool-cases (env.is_cancelled l.world.history)) [
    | inl c ↦
        rw (c, iteration)
          (
            [],
            record { accounted = idle plan l _ (omega arith) refl; total = refl; why = inl refl },
          )
    | inr c ↦ elim (Option-cases (env.begin_err (checked false ∷ l.world.history))) [
      | inl e ↦
          rw (c, iteration)
            (rw e (
              batch-Rounds has_cb l (batch_end plan size l.completed) _ (bounds.0) (bounds.1) refl
                refl))
      | inr (x, e) ↦
          rw (c, iteration)
            (rw e (
              [],
              record {
                accounted = idle plan l _ (omega arith) refl;
                total = refl;
                why = inr (inl (λ q. cc));
              },
            ))
    ]
  ]
    where
      bounds :
          (l.completed < batch_end plan size l.completed)
          × (batch_end plan size l.completed ≤ length plan.statements)
      bounds = ground arith
