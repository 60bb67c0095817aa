-- ===== src/Executor/Files.antt =====
-- The checkpoint store on files: internal/executor/file_store.go. A checkpoint is encoded as JSON;
-- encoding it does not fail.

pub mod Refines
mod Tests
use mysql_pitr.Base.{List, [], ◌∷◌, ◌++◌, Option, none, some, if◌then◌else◌}
use mysql_pitr.Base.Text.{Text, codes, is_empty}
use mysql_pitr.Base.Result.{Result, ok, err}
use mysql_pitr.Executor.Types.{Checkpoint, LoadResult, found, not_found, load_failed}
use mysql_pitr.Disk.{
  Disk, Faults, ReadResult, contents, missing, unreadable, read_file, write_file, rename, remove,
}

-- The directory, `filepath.Join`, and the JSON of a checkpoint.
pub record FileEnv : Type 0 where
  pub dir : Text
  pub path_join : Text → Text → Text
  pub encode : Checkpoint → Text
  pub decode : Text → Result Checkpoint
  pub faults : Faults

module _ (env : FileEnv) where
  unfoldable pub path : Text → Text
  path id = env.path_join env.dir (id ++ codes ".json")

  abbrev pub tmp_path : Text → Text
  tmp_path id = path id ++ codes ".tmp"

  abbrev failed_on : Text → Text → Text → Text
  failed_on what id e =
      codes "executor: " ++ (what ++ (codes " checkpoint " ++ (id ++ (codes ": " ++ e))))

  abbrev parsed : Text → Result Checkpoint → LoadResult
  parsed id (ok c) = found c
  parsed id (err e) = load_failed (failed_on (codes "parse") id e)

  abbrev load_result : Text → ReadResult → LoadResult
  load_result id (contents t) = parsed id (env.decode t)
  load_result id missing = not_found
  load_result id (unreadable e) = load_failed (failed_on (codes "load") id e)

  unfoldable pub file_load : Text → Disk → LoadResult × Disk
  file_load id d = let (r, d') = read_file env.faults (path id) d in (load_result id r, d')

  abbrev pub renamed : Option Text × Disk → Option Text × Disk
  renamed (some e, d) = (some (codes "executor: commit checkpoint: " ++ e), d)
  renamed (none, d) = (none, d)

  -- Behind the temporary file.
  abbrev pub commit_file : Checkpoint → Option Text × Disk → Option Text × Disk
  commit_file c (some e, d) = (some (codes "executor: write checkpoint: " ++ e), d)
  commit_file c (none, d) =
      renamed (rename env.faults (tmp_path c.operation_id) (path c.operation_id) d)

  unfoldable pub file_save : Checkpoint → Disk → Option Text × Disk
  file_save c d =
      if is_empty c.operation_id
      then (some (codes "executor: checkpoint.OperationID required"), d)
      else commit_file c (write_file env.faults (tmp_path c.operation_id) (env.encode c) d)

  unfoldable pub file_clear : Text → Disk → Option Text × Disk
  file_clear id d =
      let (e, d') = remove env.faults (path id) d in
      (elim e [ none ↦ none | some x ↦ some (failed_on (codes "clear") id x) ], d')
