-- ===== src/Executor/Types.antt =====
-- The data of internal/executor/types.go, and the environment that an executor calls.
use mysql_pitr.Base.{ℕ, Bool, List, Option}
use mysql_pitr.Base.Text.{Text}
use mysql_pitr.Base.Int.{ℤ}
use mysql_pitr.Reverse.Types.{Statement}

pub record ExecError : Type 0 where
  pub statement : ℕ
  pub sql : Text
  pub err : Text

pub record Plan : Type 0 where
  pub operation_id : Text
  pub statements : List Statement
  pub dsn : Text
  pub batch_size : ℤ

pub record Progress : Type 0 where
  pub done : ℕ
  pub total : ℕ
  pub last_tx_id : Text
  pub last_sql : Text
  pub errors : List ExecError

-- `rows_affected` is an int64 by its bit pattern, below 2 ^ 64.
pub record FinalReport : Type 0 where
  pub done : ℕ
  pub total : ℕ
  pub rows_affected : ℕ
  pub errors : List ExecError
  pub paused : Bool

pub record Checkpoint : Type 0 where
  pub operation_id : Text
  pub last_completed_statement : ℤ
  pub total : ℕ
  pub rows_affected : ℕ
  pub errors : List ExecError

-- What `CheckpointStore.Load` returns: a checkpoint, `ErrCheckpointNotFound`, or another error.
pub data LoadResult : Type 0 where
  found : Checkpoint → LoadResult
  not_found : LoadResult
  load_failed : Text → LoadResult

-- What `Tx.Exec` returns: an error, or a result whose `RowsAffected` may fail.
pub data ExecResult : Type 0 where
  exec_failed : Text → ExecResult
  executed : Option ℕ → ExecResult

-- A call that the executor made of the database, of its context or of its callback, with the answer.
pub data Event : Type 0 where
  opened closed began committed rolled_back : Event
  open_failed begin_failed commit_failed : Text → Event
  checked : Bool → Event
  ran : ℕ → Text → ExecResult → Event
  reported : Progress → Event

-- The environment: the database and the context answer by the calls made so far, newest first;
-- the checkpoint store has a state of its own. `none` is a nil error.
pub record Env (S : Type 0) : Type 0 where
  pub open_err : List Event → Option Text
  pub begin_err : List Event → Option Text
  pub exec : List Event → Text → ExecResult
  pub commit_err : List Event → Option Text
  pub is_cancelled : List Event → Bool
  pub load : Text → S → LoadResult
  pub save : Checkpoint → S → S × Option Text
  pub clear : Text → S → S × Option Text

pub record World (S : Type 0) : Type 0 where
  pub history : List Event
  pub store : S
