-- ===== src/Executor/Run/Tests.antt =====
-- The executor of internal/executor on a plan of three statements with the in-memory store: a run
-- that is cancelled after its first batch, and the resumption.
use mysql_pitr.Base.{ℕ, ◌≡◌, refl, ◌⊎◌, ltb, length, List, [], ◌∷◌, Option, none, some, true}
use mysql_pitr.Base.Text.{Text, codes}
use mysql_pitr.Base.Int.{pos}
use mysql_pitr.Binlog.Types.{RowChange, action_insert}
use mysql_pitr.Reverse.Types.{Statement}
use mysql_pitr.Executor.Types.{Plan, Env, World, executed, found}
use mysql_pitr.Executor.Store.{Checkpoints, load, save, clear}
use mysql_pitr.Executor.Store.Laws.{load-save}
use mysql_pitr.Executor.Run.{
  Outcome, run, resume, failure, run_from_index, run_loop, iteration, exec_batch, exec_one,
  finish_batch, save_progress, normalize_plan,
}
use mysql_pitr.Executor.Run.Trace.{Ran}
use mysql_pitr.Executor.Run.Rounds.{Ends}
use mysql_pitr.Executor.Run.Total.{Refused, Returns, begin, run-Returns}
use mysql_pitr.Executor.Run.Stored.{KeepsCheckpoints, final_checkpoint, run-final_checkpoint}
use mysql_pitr.Executor.Run.Resumed.{run-resume}

-- A database where every statement affects one row; the context is cancelled once `limit` calls
-- were made.
abbrev memory_env : ℕ → Env Checkpoints
memory_env limit = record {
  open_err = λ h. none;
  begin_err = λ h. none;
  exec = λ h sql. executed (some 1);
  commit_err = λ h. none;
  is_cancelled = λ h. ltb limit (length h);
  load = load;
  save = save;
  clear = clear;
}

abbrev row : RowChange
row = record {
  schema = codes "shop";
  table = codes "orders";
  action = action_insert;
  before = [];
  after = [];
  column_names = [];
}

abbrev statement : Text → ℕ → Statement
statement sql i = record {
  sql = sql;
  tx_id = codes "tx-1";
  tx_order = i;
  source_row = row;
  warnings = [];
}

abbrev plan : Plan
plan = record {
  operation_id = codes "op-1";
  statements =
      statement (codes "DELETE 1") 0
      ∷ statement (codes "DELETE 2") 1
      ∷ statement (codes "DELETE 3") 2
      ∷ [];
  dsn = [];
  batch_size = pos 2;
}

abbrev start : World Checkpoints
start = record { history = []; store = [] }

abbrev outcome_or : Option (Outcome Checkpoints) → Outcome Checkpoints
outcome_or none = failure [] start
outcome_or (some o) = o

abbrev first : Outcome Checkpoints
first = outcome_or (run (memory_env 8) plan true start)

memory_env-KeepsCheckpoints : KeepsCheckpoints (memory_env 8)
memory_env-KeepsCheckpoints = record { load_saved = load-save }

first-ran : run (memory_env 8) plan true start ≡ some first
unfolding run run_from_index run_loop iteration exec_batch exec_one finish_batch save_progress
    normalize_plan save clear
first-ran = refl

first-ends : first.error ≡ none
unfolding run run_from_index run_loop iteration exec_batch exec_one finish_batch save_progress
    normalize_plan save clear
first-ends = refl

-- The first batch was committed, and the second was not begun.
first-pauses : first.report.done ≡ 2
unfolding run run_from_index run_loop iteration exec_batch exec_one finish_batch save_progress
    normalize_plan save clear
first-pauses = refl

run-Returns_example : Returns plan (begin 0 start) (run (memory_env 8) plan true start)
run-Returns_example = run-Returns (memory_env 8) plan true start

run-final_checkpoint_example :
    load (codes "op-1") first.world.store ≡ found (final_checkpoint plan first)
run-final_checkpoint_example =
    run-final_checkpoint (memory_env 8) plan true start first memory_env-KeepsCheckpoints first-ran
      first-ends

run-resume_example :
    (p : Outcome Checkpoints) × (resume (memory_env 100) plan true first.world ≡ some p)
    × (((rs : List Ran) × Ends plan (begin 0 start) p rs) ⊎ Refused first.world.history p)
run-resume_example =
    run-resume (memory_env 8) (memory_env 100) plan true true start first.world first
      memory_env-KeepsCheckpoints first-ran first-ends refl refl refl
