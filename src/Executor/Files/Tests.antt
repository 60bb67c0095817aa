-- ===== src/Executor/Files/Tests.antt =====
-- The checkpoint store on files of internal/executor/file_store.go with one operation.
use mysql_pitr.Base.{
  ◌==◌, if◌then◌else◌, ◌≡◌, ◌≢◌, refl, sym, ap, ◌∙◌, List, [], ◌∷◌, ◌++◌, none, some,
}
use mysql_pitr.Base.Text.{Text, codes}
use mysql_pitr.Base.Int.{pos}
use mysql_pitr.Base.Dict.{lookup}
use mysql_pitr.Base.Result.{ok}
use mysql_pitr.Executor.Types.{Checkpoint}
use mysql_pitr.Executor.Store.{Checkpoints}
use mysql_pitr.Disk.{Disk}
use mysql_pitr.Executor.Files.{FileEnv, path, tmp_path}
use mysql_pitr.Executor.Files.Refines.{
  StoreCall, load_call, save_call, clear_call, Trace, IsUsable, Represents, AllUsed, file_calls,
}
use mysql_pitr.Executor.Files.Refines.Steps.{file_calls-Trace}

abbrev checkpoint : Checkpoint
checkpoint = record {
  operation_id = codes "op";
  last_completed_statement = pos 3;
  total = 9;
  rows_affected = 3;
  errors = [];
}

-- The second write is torn.
abbrev env : FileEnv
env = record {
  dir = codes "dir";
  path_join = λ d n. d ++ b'/' ∷ n;
  encode = λ c. codes "{}";
  decode = λ t. ok checkpoint;
  faults = record {
    read_err = λ n. none;
    write_err = λ n. if n == 2 then some (codes "disk full") else none;
    torn = λ n. some (codes "{");
    rename_err = λ n. none;
    remove_err = λ n. none;
    missing_text = λ p. p;
  };
}

abbrev IsOp : Text → Type 0
IsOp id = id ≡ codes "op"

abbrev IsCheckpoint : Checkpoint → Type 0
IsCheckpoint c = c ≡ checkpoint

op_not_tmp : tmp_path env (codes "op") ≢ path env (codes "op")
unfolding path
op_not_tmp e = cc

env-IsUsable : IsUsable env IsOp IsCheckpoint
env-IsUsable = record {
  id_of = λ c h. ap (λ (x : Checkpoint). x.operation_id) h;
  decoded = λ c h. ap ok (sym h);
  apart = λ i j hi hj e. hi ∙ sym hj;
  not_tmp = λ i j hi hj e. op_not_tmp (ap (tmp_path env) (sym hi) ∙ e ∙ ap (path env) hj);
}

abbrev empty_disk : Disk
empty_disk = record { files = []; calls = 0 }

abbrev calls : List StoreCall
calls =
    save_call checkpoint
    ∷ save_call checkpoint
    ∷ load_call (codes "op")
    ∷ clear_call (codes "op")
    ∷ []

nothing-Represents : Represents env IsOp IsCheckpoint empty_disk []
unfolding lookup
nothing-Represents = (λ id h. refl, λ id c h. cc)

calls-AllUsed : AllUsed env IsOp IsCheckpoint calls
calls-AllUsed = (refl, (refl, (refl, (refl, tt))))

file_calls-Trace_example :
    (m' : Checkpoints) × Trace [] (file_calls env calls empty_disk).0 m'
    × Represents env IsOp IsCheckpoint (file_calls env calls empty_disk).1 m'
file_calls-Trace_example =
    file_calls-Trace env IsOp IsCheckpoint env-IsUsable calls [] empty_disk calls-AllUsed
      nothing-Represents
