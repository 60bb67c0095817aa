-- ===== src/Disk.antt =====
-- Files as internal/executor/file_store.go and internal/checkpoint/manager.go use them: names with
-- contents, behind calls of the operating system that can fail.
use mysql_pitr.Base.{ℕ, suc, List, Option, none, some}
use mysql_pitr.Base.Text.{Text}
use mysql_pitr.Base.Dict.{lookup, insert, delete}

-- The contents by name, and the number of calls made.
pub record Disk : Type 0 where
  pub files : List (Text × Text)
  pub calls : ℕ

-- The errors, by the number of the call; `none` is a nil error. A write that fails leaves the file as
-- it was, or with other contents.
pub record Faults : Type 0 where
  pub read_err : ℕ → Option Text
  pub write_err : ℕ → Option Text
  pub torn : ℕ → Option Text
  pub rename_err : ℕ → Option Text
  pub remove_err : ℕ → Option Text
  -- The text of the error for a file that does not exist.
  pub missing_text : Text → Text

-- The contents, an error for which `os.IsNotExist` holds, or another error.
pub data ReadResult : Type 0 where
  contents : Text → ReadResult
  missing : ReadResult
  unreadable : Text → ReadResult

abbrev pub called : Disk → Disk
called d = record d { calls = suc d.calls }

abbrev pub read_of : Option Text → ReadResult
read_of none = missing
read_of (some t) = contents t

abbrev pub torn_files : Text → Option Text → List (Text × Text) → List (Text × Text)
torn_files p none fs = fs
torn_files p (some t) fs = insert p t fs

module _ (env : Faults) where
  -- `os.ReadFile`.
  unfoldable pub read_file : Text → Disk → ReadResult × Disk
  read_file p d = elim (env.read_err d.calls) [
    | some e ↦ (unreadable e, called d)
    | none ↦ (read_of (lookup p d.files), called d)
  ]

  -- `os.WriteFile`.
  unfoldable pub write_file : Text → Text → Disk → Option Text × Disk
  write_file p t d = elim (env.write_err d.calls) [
    | some e ↦ (some e, record (called d) { files = torn_files p (env.torn d.calls) d.files })
    | none ↦ (none, record (called d) { files = insert p t d.files })
  ]

  -- `os.Rename`, atomic.
  unfoldable pub rename : Text → Text → Disk → Option Text × Disk
  rename from to d = elim (env.rename_err d.calls) [
    | some e ↦ (some e, called d)
    | none ↦ elim (lookup from d.files) [
      | none ↦ (some (env.missing_text from), called d)
      | some t ↦ (none, record (called d) { files = insert to t (delete from d.files) })
    ]
  ]

  -- `os.Remove`; the file that is missing is no error to its callers.
  unfoldable pub remove : Text → Disk → Option Text × Disk
  remove p d = elim (env.remove_err d.calls) [
    | some e ↦ (some e, called d)
    | none ↦ (none, record (called d) { files = delete p d.files })
  ]
