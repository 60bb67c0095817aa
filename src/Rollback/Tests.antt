-- ===== src/Rollback/Tests.antt =====
-- The checkpoints of internal/checkpoint on a disk with one file.
use mysql_pitr.Base.{◌≡◌, refl, [], ◌∷◌, ◌++◌, none, some}
use mysql_pitr.Base.Text.{codes}
use mysql_pitr.Base.Int.{pos, negsuc}
use mysql_pitr.Base.Result.{ok}
use mysql_pitr.Base.Dict.{lookup, insert}
use mysql_pitr.Disk.{Disk, read_file, write_file, rename}
use mysql_pitr.Rollback.{
  RollbackCheckpoint, ManagerEnv, checkpoint_path, tmp_path, atomic_write, read_checkpoint, change,
  update_batch,
}
use mysql_pitr.Rollback.Written.{Written, atomic_write-Written, progressed, update_batch-read}

abbrev before : RollbackCheckpoint
before = record {
  recovery_id = codes "r1";
  table_name = codes "orders";
  recovery_time = 5;
  total_batches = pos 4;
  completed_batches = pos 0;
  table_order = [];
  last_commit_at = 6;
  status = codes "in_progress";
  checksum = [];
}

-- The JSON is a number of batches.
abbrev env : ManagerEnv
env = record {
  dir = codes "data";
  path_join = λ d n. d ++ b'/' ∷ n;
  encode = λ c. elim c.completed_batches [ pos n ↦ n ∷ [] | negsuc n ↦ [] ];
  encode_plain = λ c. [];
  decode = λ t. elim t [
    | [] ↦ ok before
    | n ∷ ns ↦ ok (record before { completed_batches = pos n; last_commit_at = 6 })
  ];
  sha256_hex = λ t. t;
  now = λ n. 6;
  mkdir_err = λ n. none;
  read_dir = λ d. ok none;
  trim_json = λ t. some t;
  sort_newest = λ cs. cs;
  faults = record {
    read_err = λ n. none;
    write_err = λ n. none;
    torn = λ n. none;
    rename_err = λ n. none;
    remove_err = λ n. none;
    missing_text = λ p. p;
  };
}

abbrev disk : Disk
disk = record { files = (codes "data/checkpoints/r1.json", 0 ∷ []) ∷ []; calls = 0 }

atomic_write-Written_example :
    Written
      (tmp_path env (codes "r1"))
      (checkpoint_path env (codes "r1"))
      (0 ∷ [])
      disk
      (atomic_write env before disk)
atomic_write-Written_example = atomic_write-Written env before disk

before-read : (read_checkpoint env (codes "r1") disk).0 ≡ ok before
unfolding read_checkpoint read_file checkpoint_path lookup
before-read = refl

update-ok : (update_batch env (codes "r1") (pos 3) disk).0 ≡ none
unfolding update_batch change read_checkpoint read_file checkpoint_path atomic_write write_file
    rename lookup insert
update-ok = refl

update_batch-read_example :
    (read_checkpoint env (codes "r1") (update_batch env (codes "r1") (pos 3) disk).1).0
    ≡ ok (progressed env before (pos 3) 6)
update_batch-read_example =
    update_batch-read env before (codes "r1") (pos 3) disk before-read refl refl update-ok refl
