-- ===== src/Executor/Run.antt =====
-- Running a plan: internal/executor/executor.go. Indexes and batch sizes are taken to be so small
-- that their sums stay below 2 ^ 63; row counts wrap at 2 ^ 64.
pub mod Trace
pub mod Batches
pub mod Rounds
pub mod Total
pub mod Stored
pub mod Resumed
mod Tests
use mysql_pitr.Base.{
  ℕ, zero, suc, ◌+◌, ◌-◌, ◌%◌, ◌^◌, Bool, true, false, Option, none, some, List, [], ◌∷◌, ◌++◌, ltb,
  if◌then◌else◌, length, take, drop, get_elem?,
}
use mathlib.Core.Option
use mysql_pitr.Base.Text.{Text, codes, is_empty}
use mysql_pitr.Base.Int.{ℤ, pos, negsuc, is_nonpositive, pos_part, nat_text}
use mysql_pitr.Base.Result.{Result, ok, err}
use mysql_pitr.Reverse.Types.{Statement}
use mysql_pitr.Executor.Types.{
  ExecError, Plan, Progress, FinalReport, Checkpoint, LoadResult, found, not_found, load_failed,
  ExecResult, exec_failed, executed, Event, opened, closed, began, committed, rolled_back,
  open_failed, begin_failed, commit_failed, checked, ran, reported, Env, World,
}

abbrev pub default_batch_size : ℕ
default_batch_size = 50

-- int64 addition on bit patterns.
abbrev pub add64 : ℕ → ℕ → ℕ
add64 a b = (a + b) % 2 ^ 64

abbrev normalize_size : ℤ → Result ℕ
normalize_size (pos zero) = ok default_batch_size
normalize_size (pos (suc n)) = ok (suc n)
normalize_size (negsuc n) = err (codes "executor: BatchSize must be >= 1")

-- The batch size that the plan is run with. The factory and the store are never nil here.
unfoldable pub normalize_plan : Plan → Result ℕ
normalize_plan plan =
    if is_empty plan.operation_id
    then err (codes "executor: plan.OperationID required")
    else normalize_size plan.batch_size

-- The statement before index `completed`, if there is one.
abbrev last_statement : Plan → ℕ → Option Statement
last_statement plan zero = none
last_statement plan (suc i) = get_elem? plan.statements i

pub last_tx_id : Plan → ℕ → Text
last_tx_id plan completed = elim (last_statement plan completed) [ none ↦ [] | some st ↦ st.tx_id ]

pub last_sql : Plan → ℕ → Text
last_sql plan completed = elim (last_statement plan completed) [ none ↦ [] | some st ↦ st.sql ]

abbrev pub observe : {S : Type 0} → Event → World S → World S
observe e w = record w { history = e ∷ w.history }

-- The variables of the batch that is open.
pub record Batch (S : Type 0) : Type 0 where
  pub errs : List ExecError
  pub rows : ℕ
  pub aborted : Bool
  pub world : World S

-- The variables of the loop over the batches.
pub record Loop (S : Type 0) : Type 0 where
  pub completed : ℕ
  pub errs : List ExecError
  pub rows : ℕ
  pub world : World S

-- What `Run` and `Resume` return, and the world that they leave.
pub record Outcome (S : Type 0) : Type 0 where
  pub report : FinalReport
  pub error : Option Text
  pub world : World S

pub data Step (S : Type 0) : Type 0 where
  stop : Outcome S → Step S
  go : Loop S → Step S

-- The report of a loop that ends with the given flag, error and world.
abbrev pub outcome : {S : Type 0} → Plan → Loop S → Bool → Option Text → World S → Outcome S
outcome plan l paused error w = record {
  report = record {
    done = l.completed;
    total = length plan.statements;
    rows_affected = l.rows;
    errors = l.errs;
    paused = paused;
  };
  error = error;
  world = w;
}

abbrev pub no_report : FinalReport
no_report = record { done = 0; total = 0; rows_affected = 0; errors = []; paused = false }

-- `FinalReport{}` with an error.
abbrev pub failure : {S : Type 0} → Text → World S → Outcome S
failure e w = record { report = no_report; error = some e; world = w }

-- The checkpoint of a loop state.
abbrev pub checkpoint_of : {S : Type 0} → Plan → Loop S → Checkpoint
checkpoint_of plan l = record {
  operation_id = plan.operation_id;
  last_completed_statement = pos l.completed;
  total = length plan.statements;
  rows_affected = l.rows;
  errors = l.errs;
}

progress_of : {S : Type 0} → Plan → Loop S → Progress
progress_of plan l = record {
  done = l.completed;
  total = length plan.statements;
  last_tx_id = last_tx_id plan l.completed;
  last_sql = last_sql plan l.completed;
  errors = l.errs;
}

abbrev pub batch_end : Plan → ℕ → ℕ → ℕ
batch_end plan size completed =
    let e = completed + size in
    let total = length plan.statements in if ltb total e then total else e

abbrev pub close_db : {S : Type 0} → Outcome S → Outcome S
close_db o = record o { world = observe closed o.world }

abbrev initial_checkpoint : Plan → Checkpoint
initial_checkpoint plan = record {
  operation_id = plan.operation_id;
  last_completed_statement = pos 0;
  total = length plan.statements;
  rows_affected = 0;
  errors = [];
}

abbrev pub start_index : Checkpoint → ℕ
start_index cp =
    if is_nonpositive cp.last_completed_statement then 0 else pos_part cp.last_completed_statement

module _ {S : Type 0} (env : Env S) where
  abbrev record_result : ℕ → Statement → Batch S → ExecResult → Batch S
  record_result i st b (exec_failed e) = record b {
    errs = b.errs ++ record { statement = i; sql = st.sql; err = e } ∷ [];
    world = observe (ran i st.sql (exec_failed e)) b.world;
  }
  record_result i st b (executed none) = record b {
    world = observe (ran i st.sql (executed none)) b.world;
  }
  record_result i st b (executed (some n)) = record b {
    rows = add64 b.rows n;
    world = observe (ran i st.sql (executed (some n))) b.world;
  }

  -- The body of the inner loop once the context is found alive.
  pub exec_one : ℕ → Statement → Batch S → Batch S
  exec_one i st b =
      if is_empty st.sql then b else record_result i st b (env.exec b.world.history st.sql)

  -- The inner loop, over the statements from index `i` up to the end of the batch.
  pub exec_batch : ℕ → List Statement → Batch S → Batch S
  exec_batch i [] b = b
  exec_batch i (st ∷ sts) b =
      let c = env.is_cancelled b.world.history in
      let b' : Batch S = record b { world = observe (checked c) b.world } in
      elim c [
        | true ↦ record b' { aborted = true }
        | false ↦ exec_batch (suc i) sts (exec_one i st b')
      ]

  -- After a commit: the checkpoint, then the callback, if there is one.
  pub save_progress : Plan → Bool → Loop S → Step S
  save_progress plan has_cb l =
      let (s, e) = env.save (checkpoint_of plan l) l.world.store in
      let w : World S = record l.world { store = s } in
      elim e [
        | some e' ↦ stop (outcome plan l false (some (codes "executor: save checkpoint: " ++ e')) w)
        | none ↦
            go
              (record l { world = if has_cb then observe (reported (progress_of plan l)) w else w })
      ]

  -- The end of the iteration: roll back an aborted batch, or commit.
  pub finish_batch : Plan → Bool → Loop S → ℕ → Batch S → Step S
  finish_batch plan has_cb l batch_end b =
      if b.aborted
      then stop (outcome plan l true none (observe rolled_back b.world))
      else elim (env.commit_err b.world.history) [
        | some e ↦ stop (
            outcome plan l false
              (some (
                codes "executor: commit batch ["
                ++ (nat_text l.completed
                    ++ (codes "," ++ (nat_text batch_end ++ (codes "): " ++ e))))))
              (observe rolled_back (observe (commit_failed e) b.world)))
        | none ↦ save_progress plan has_cb (record {
          completed = batch_end;
          errs = l.errs ++ b.errs;
          rows = add64 l.rows b.rows;
          world = observe committed b.world;
        })
      ]

  -- One iteration of the outer loop.
  pub iteration : Plan → ℕ → Bool → Loop S → Step S
  iteration plan size has_cb l =
      let c = env.is_cancelled l.world.history in
      let w = observe (checked c) l.world in
      let to = batch_end plan size l.completed in
      if c then stop (outcome plan l true none w) else elim (env.begin_err w.history) [
        | some e ↦ stop (
            outcome plan l false (some (codes "executor: begin tx: " ++ e))
              (observe (begin_failed e) w))
        | none ↦ finish_batch plan has_cb l to (
            exec_batch l.completed (take (to - l.completed) (drop l.completed plan.statements))
              (record { errs = []; rows = 0; aborted = false; world = observe began w }))
      ]

  -- The outer loop; `none` means that the fuel ran out.
  pub run_loop : ℕ → Plan → ℕ → Bool → Loop S → Option (Outcome S)
  run_loop zero plan size has_cb l = none
  run_loop (suc fuel) plan size has_cb l = elim (ltb l.completed (length plan.statements)) [
    | true ↦ elim (iteration plan size has_cb l) [
      | stop o ↦ some o
      | go l' ↦ run_loop fuel plan size has_cb l'
    ]
    | false ↦ some (outcome plan l false none l.world)
  ]

  -- A loop that starts at `start` makes at most one round for each statement left.
  pub run_from_index : Plan → ℕ → Bool → Loop S → Option (Outcome S)
  run_from_index plan size has_cb l = elim (env.open_err l.world.history) [
    | some e ↦ some (failure (codes "executor: open db: " ++ e) (observe (open_failed e) l.world))
    | none ↦ Option.map close_db (
        run_loop (suc (length plan.statements - l.completed)) plan size has_cb
          (record l { world = observe opened l.world }))
  ]

  -- `Run`: the old checkpoint is dropped, and its error ignored.
  pub run : Plan → Bool → World S → Option (Outcome S)
  run plan has_cb w = elim (normalize_plan plan) [
    | err e ↦ some (failure e w)
    | ok size ↦
        let s1 = (env.clear plan.operation_id w.store).0 in
        let (s2, e) = env.save (initial_checkpoint plan) s1 in
        let w' : World S = record w { store = s2 } in
        elim e [
          | some e' ↦ some (failure (codes "executor: init checkpoint: " ++ e') w')
          | none ↦
              run_from_index plan size has_cb
                (record { completed = 0; errs = []; rows = 0; world = w' })
        ]
  ]

  -- `Resume` once the checkpoint is loaded, or found missing.
  pub resume_from : Plan → ℕ → Bool → Loop S → Option (Outcome S)
  resume_from plan size has_cb l =
      if ltb (length plan.statements) l.completed
      then some (outcome plan (record l { completed = length plan.statements }) false none l.world)
      else run_from_index plan size has_cb l

  pub resume : Plan → Bool → World S → Option (Outcome S)
  resume plan has_cb w = elim (normalize_plan plan) [
    | err e ↦ some (failure e w)
    | ok size ↦ elim (env.load plan.operation_id w.store) [
      | load_failed e ↦ some (failure (codes "executor: load checkpoint: " ++ e) w)
      | not_found ↦
          resume_from plan size has_cb (record { completed = 0; errs = []; rows = 0; world = w })
      | found cp ↦ resume_from plan size has_cb (record {
        completed = start_index cp;
        errs = cp.errors;
        rows = cp.rows_affected;
        world = w;
      })
    ]
  ]
