-- ===== src/Executor/Files/Refines.antt =====
-- The checkpoint store on files (internal/executor/file_store.go) implements the store that
-- internal/executor/checkpoint.go keeps in memory, for calls of the operating system that fail.
pub mod Saved
pub mod Steps
use mysql_pitr.Base.{
  ℕ, ◌≡◌, ◌≢◌, ◌↔◌, refl, sym, ap, ◌∙◌, inl, inr, Bool, true, false, List, [], ◌∷◌, ◌++◌, Option,
  none, some, if◌then◌else◌, Bool-cases, Option-cases, arith,
}
use mysql_pitr.Base.Text.{Text, codes, is_empty, text_eq, text_eq_iff, text_eq_refl}
use mysql_pitr.Base.Dict.{lookup, insert, delete, lookup-insert, lookup-delete, lookup-insert_self}
use mysql_pitr.Base.Result.{Result, ok, err}
use mysql_pitr.Executor.Types.{Checkpoint, LoadResult, found, not_found, load_failed}
use mysql_pitr.Executor.Store.{Checkpoints, load, save, clear}
use mysql_pitr.Disk.{
  Disk, Faults, called, read_of, torn_files, read_file, write_file, rename, remove,
}
use mysql_pitr.Executor.Files.{
  FileEnv, path, tmp_path, failed_on, load_result, file_load, commit_file, file_save, file_clear,
}

pub data StoreCall : Type 0 where
  load_call : Text → StoreCall
  save_call : Checkpoint → StoreCall
  clear_call : Text → StoreCall

pub data StoreAnswer : Type 0 where
  loaded : LoadResult → StoreAnswer
  stored : Option Text → StoreAnswer

-- The store in memory, where every call may fail and then changes nothing.
pub data Allowed : Checkpoints → StoreCall → StoreAnswer → Checkpoints → Type 0 where
  loads : (m : Checkpoints) (id : Text) → Allowed m (load_call id) (loaded (load id m)) m
  load_fails : (m : Checkpoints) (id e : Text) → Allowed m (load_call id) (loaded (load_failed e)) m
  saves :
      (m : Checkpoints) (c : Checkpoint)
      → Allowed m (save_call c) (stored (save c m).1) (save c m).0
  save_fails :
      (m : Checkpoints) (c : Checkpoint) (e : Text) → Allowed m (save_call c) (stored (some e)) m
  clears : (m : Checkpoints) (id : Text) → Allowed m (clear_call id) (stored none) (clear id m).0
  clear_fails : (m : Checkpoints) (id e : Text) → Allowed m (clear_call id) (stored (some e)) m

-- Sequences of these.
pub data Trace : Checkpoints → List (StoreCall × StoreAnswer) → Checkpoints → Type 0 where
  done : (m : Checkpoints) → Trace m [] m
  step :
      (m m' m'' : Checkpoints) (q : StoreCall) (a : StoreAnswer)
      (qs : List (StoreCall × StoreAnswer))
      → Allowed m q a m'
      → Trace m' qs m''
      → Trace m ((q, a) ∷ qs) m''

-- What the store on files needs of the operations and checkpoints that it is used with: their files
-- have different names, also from the temporary ones, and a checkpoint is decoded to what was encoded.
pub record IsUsable (env : FileEnv) (Named : Text → Type 0) (Cp : Checkpoint → Type 0)
    : Type 0 where
  pub id_of : (c : Checkpoint) → Cp c → Named c.operation_id
  pub decoded : (c : Checkpoint) → Cp c → env.decode (env.encode c) ≡ ok c
  pub apart : (i j : Text) → Named i → Named j → path env i ≡ path env j → i ≡ j
  pub not_tmp : (i j : Text) → Named i → Named j → tmp_path env i ≢ path env j

module _ (env : FileEnv) where
  unfoldable pub file_call : StoreCall → Disk → StoreAnswer × Disk
  file_call (load_call id) d = let (r, d') = file_load env id d in (loaded r, d')
  file_call (save_call c) d = let (e, d') = file_save env c d in (stored e, d')
  file_call (clear_call id) d = let (e, d') = file_clear env id d in (stored e, d')

  -- The calls with their answers, and the disk behind them.
  unfoldable pub file_calls : List StoreCall → Disk → List (StoreCall × StoreAnswer) × Disk
  file_calls [] d = ([], d)
  file_calls (q ∷ qs) d =
      let (a, d') = file_call q d in let (rest, d'') = file_calls qs d' in ((q, a) ∷ rest, d'')

abbrev encoded : FileEnv → Option Checkpoint → Option Text
encoded env none = none
encoded env (some c) = some (env.encode c)

module _ (env : FileEnv) (Named : Text → Type 0) (Cp : Checkpoint → Type 0) where
  abbrev IsUsed : StoreCall → Type 0
  IsUsed (load_call id) = Named id
  IsUsed (save_call c) = Cp c
  IsUsed (clear_call id) = Named id

  abbrev pub AllUsed : List StoreCall → Type 0
  AllUsed [] = Unit
  AllUsed (q ∷ qs) = IsUsed q × AllUsed qs

  -- The file of each operation holds its checkpoint, and there is no file without one.
  abbrev pub Represents : Disk → Checkpoints → Type 0
  Represents d m =
      ((id : Text) → Named id → lookup (path env id) d.files ≡ encoded env (lookup id m))
      × ((id : Text) (c : Checkpoint) → lookup id m ≡ some c → Cp c)

module _ (env : FileEnv) (Named : Text → Type 0) (Cp : Checkpoint → Type 0)
    (usable : IsUsable env Named Cp) where
  pub path_eq : (i j : Text) → Named i → Named j → text_eq (path env i) (path env j) ≡ text_eq i j
  path_eq i j hi hj = elim (Bool-cases (text_eq i j)) [
    | inl e ↦ rw ((text_eq_iff i j).0 e, text_eq_refl (path env j), text_eq_refl j) refl
    | inr e ↦ elim (Bool-cases (text_eq (path env i) (path env j))) [
      | inl q ↦
          let same = usable.apart i j hi hj ((text_eq_iff (path env i) (path env j)).0 q) in
          absurd (ground (arith, text_eq_iff i j, e, same))
      | inr q ↦ rw (e, q) refl
    ]
  ]

  pub tmp_eq : (i j : Text) → Named i → Named j → text_eq (tmp_path env i) (path env j) ≡ false
  tmp_eq i j hi hj = elim (Bool-cases (text_eq (tmp_path env i) (path env j))) [
    | inl q ↦ absurd (usable.not_tmp i j hi hj ((text_eq_iff (tmp_path env i) (path env j)).0 q))
    | inr q ↦ q
  ]
