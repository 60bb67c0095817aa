-- ===== src/Rollback.antt =====
-- The checkpoints of rollback executions: internal/checkpoint. A checkpoint is encoded as JSON;
-- encoding it does not fail. The manager's lock makes each operation one step.
pub mod Written
mod Tests
use mysql_pitr.Base.{ℕ, suc, if◌then◌else◌, Bool, List, [], ◌∷◌, ◌++◌, Option, none, some}
use mysql_pitr.Base.Text.{Text, codes}
use mysql_pitr.Base.Int.{ℤ, pos}
use mysql_pitr.Base.Result.{Result, ok, err}
use mysql_pitr.Binlog.Types.{Time}
use mysql_pitr.Disk.{
  Disk, Faults, ReadResult, contents, missing, unreadable, called, read_file, write_file, rename,
  remove,
}

pub record CheckpointPlan : Type 0 where
  pub recovery_id : Text
  pub table_name : Text
  pub recovery_time : Time
  pub total_batches : ℤ
  pub table_order : List Text

pub record RollbackCheckpoint : Type 0 where
  pub recovery_id : Text
  pub table_name : Text
  pub recovery_time : Time
  pub total_batches : ℤ
  pub completed_batches : ℤ
  pub table_order : List Text
  pub last_commit_at : Time
  pub status : Text
  pub checksum : Text

-- An entry of a directory.
pub record DirEntry : Type 0 where
  pub name : Text
  pub is_dir : Bool

-- The directory, and what the manager calls: `filepath.Join`, JSON (also without the indentation),
-- SHA-256 in hexadecimal, the clock by the number of the call, `os.MkdirAll`, `os.ReadDir` (`none`
-- where the directory does not exist), `strings.TrimSuffix` for ".json" (`none` without the suffix),
-- and `sort.Slice` by descending time of the last commit.
pub record ManagerEnv : Type 0 where
  pub dir : Text
  pub path_join : Text → Text → Text
  pub encode : RollbackCheckpoint → Text
  pub encode_plain : RollbackCheckpoint → Text
  pub decode : Text → Result RollbackCheckpoint
  pub sha256_hex : Text → Text
  pub now : ℕ → Time
  pub mkdir_err : ℕ → Option Text
  pub read_dir : Disk → Result (Option (List DirEntry))
  pub trim_json : Text → Option Text
  pub sort_newest : List RollbackCheckpoint → List RollbackCheckpoint
  pub faults : Faults

module _ (env : ManagerEnv) where
  unfoldable pub checkpoint_path : Text → Text
  checkpoint_path id =
      env.path_join (env.path_join env.dir (codes "checkpoints")) (id ++ codes ".json")

  abbrev pub tmp_path : Text → Text
  tmp_path id = checkpoint_path id ++ codes ".tmp"

  -- A rename that fails removes the temporary file as well as it can.
  abbrev pub renamed : Text → Option Text × Disk → Option Text × Disk
  renamed tmp (none, d) = (none, d)
  renamed tmp (some e, d) = (some (codes "checkpoint: rename: " ++ e), (remove env.faults tmp d).1)

  abbrev pub written : Text → Option Text × Disk → Option Text × Disk
  written id (some e, d) = (some (codes "checkpoint: write tmp: " ++ e), d)
  written id (none, d) =
      renamed (tmp_path id) (rename env.faults (tmp_path id) (checkpoint_path id) d)

  unfoldable pub atomic_write : RollbackCheckpoint → Disk → Option Text × Disk
  atomic_write cp d =
      written cp.recovery_id (write_file env.faults (tmp_path cp.recovery_id) (env.encode cp) d)

  abbrev unmarshaled : Text → Result RollbackCheckpoint → Result RollbackCheckpoint
  unmarshaled id (ok cp) = ok cp
  unmarshaled id (err e) = err (codes "checkpoint: unmarshal " ++ (id ++ (codes ": " ++ e)))

  abbrev checkpoint_of : Text → ReadResult → Result RollbackCheckpoint
  checkpoint_of id (contents t) = unmarshaled id (env.decode t)
  checkpoint_of id missing = err (
      codes "checkpoint: read "
      ++ (id ++ (codes ": " ++ env.faults.missing_text (checkpoint_path id))))
  checkpoint_of id (unreadable e) = err (codes "checkpoint: read " ++ (id ++ (codes ": " ++ e)))

  unfoldable pub read_checkpoint : Text → Disk → Result RollbackCheckpoint × Disk
  read_checkpoint id d =
      let (r, d') = read_file env.faults (checkpoint_path id) d in (checkpoint_of id r, d')

  abbrev new_checkpoint : CheckpointPlan → Time → RollbackCheckpoint
  new_checkpoint plan t = record {
    recovery_id = plan.recovery_id;
    table_name = plan.table_name;
    recovery_time = plan.recovery_time;
    total_batches = plan.total_batches;
    completed_batches = pos 0;
    table_order = plan.table_order;
    last_commit_at = t;
    status = codes "in_progress";
    checksum = [];
  }

  -- The checkpoint, if it was written.
  abbrev created : RollbackCheckpoint → Option Text × Disk → Result RollbackCheckpoint × Disk
  created cp (none, d) = (ok cp, d)
  created cp (some e, d) = (err e, d)

  unfoldable pub create_checkpoint : CheckpointPlan → Disk → Result RollbackCheckpoint × Disk
  create_checkpoint plan d = elim (env.mkdir_err d.calls) [
    | some e ↦ (err (codes "checkpoint: create dir: " ++ e), called d)
    | none ↦
        (let cp = new_checkpoint plan (env.now (suc d.calls)) in
          created cp (atomic_write cp (called d)))
  ]

  -- A change of the stored checkpoint.
  unfoldable pub change :
      (RollbackCheckpoint → RollbackCheckpoint)
      → Result RollbackCheckpoint × Disk
      → Option Text × Disk
  change f (err e, d) = (some e, d)
  change f (ok cp, d) = atomic_write (f cp) d

  unfoldable pub update_batch : Text → ℤ → Disk → Option Text × Disk
  update_batch id completed d =
      change (λ cp. record cp { completed_batches = completed; last_commit_at = env.now d.calls })
        (read_checkpoint id d)

  abbrev pub completed_at : Time → RollbackCheckpoint → RollbackCheckpoint
  completed_at t cp =
      let whole = record cp { status = codes "complete"; last_commit_at = t } in
      record whole { checksum = env.sha256_hex (env.encode_plain whole) }

  unfoldable pub complete : Text → Disk → Option Text × Disk
  complete id d = change (completed_at (env.now d.calls)) (read_checkpoint id d)

  -- The checkpoints that can be read.
  abbrev kept : Result RollbackCheckpoint → List RollbackCheckpoint → List RollbackCheckpoint
  kept (ok cp) cps = cp ∷ cps
  kept (err e) cps = cps

  unfoldable pub read_all : List DirEntry → Disk → List RollbackCheckpoint × Disk
  read_all [] d = ([], d)
  read_all (e ∷ es) d = elim (if e.is_dir then none else env.trim_json e.name) [
    | none ↦ read_all es d
    | some id ↦
        (let (r, d') = read_checkpoint id d in let (cps, d'') = read_all es d' in (kept r cps, d''))
  ]

  unfoldable pub list_checkpoints : Disk → Result (List RollbackCheckpoint) × Disk
  list_checkpoints d = elim (env.read_dir d) [
    | err e ↦ (err (codes "checkpoint: read dir: " ++ e), d)
    | ok none ↦ (ok [], d)
    | ok (some entries) ↦ (let (cps, d') = read_all entries d in (ok (env.sort_newest cps), d'))
  ]

  abbrev first_of : List RollbackCheckpoint → Option RollbackCheckpoint
  first_of [] = none
  first_of (cp ∷ cps) = some cp

  unfoldable pub get_last_checkpoint : Disk → Result (Option RollbackCheckpoint) × Disk
  get_last_checkpoint d =
      let (r, d') = list_checkpoints d in
      (elim r [ err e ↦ err e | ok cps ↦ ok (first_of cps) ], d')
