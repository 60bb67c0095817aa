-- ===== src/Executor/Files/Refines/Saved.antt =====
-- The files behind a save of internal/executor/file_store.go.
use mysql_pitr.Base.{
  ℕ, suc, ◌≡◌, ◌⊎◌, refl, sym, ap, ◌∙◌, inl, inr, Bool, true, false, List, Option, none, some,
  if◌then◌else◌, Option-cases,
}
use mathlib.Core.Path.{subst}
use mysql_pitr.Base.Text.{Text, text_eq}
use mysql_pitr.Base.Dict.{lookup, insert, delete, lookup-insert, lookup-delete, lookup-insert_self}
use mysql_pitr.Executor.Types.{Checkpoint}
use mysql_pitr.Executor.Store.{Checkpoints}
use mysql_pitr.Disk.{Disk, called, torn_files, rename}
use mysql_pitr.Executor.Files.{FileEnv, path, tmp_path}
use mysql_pitr.Executor.Files.Refines.{IsUsable, encoded, Represents, path_eq, tmp_eq}

module _ (env : FileEnv) (Named : Text → Type 0) (Cp : Checkpoint → Type 0)
    (usable : IsUsable env Named Cp) where
  pub torn_same :
      (i j : Text) (t : Option Text) (fs : List (Text × Text))
      → Named i
      → Named j
      → lookup (path env j) (torn_files (tmp_path env i) t fs) ≡ lookup (path env j) fs
  torn_same i j none fs hi hj = refl
  torn_same i j (some t) fs hi hj =
      lookup-insert (tmp_path env i) (path env j) t fs
      ∙ ap (λ b. if b then some t else lookup (path env j) fs)
          (tmp_eq env Named Cp usable i j hi hj)

  -- The files behind the rename.
  pub saved_files : Text → Text → List (Text × Text) → List (Text × Text)
  saved_files i t fs =
      insert (path env i) t (delete (tmp_path env i) (insert (tmp_path env i) t fs))

  lookup-saved_files :
      (i j t : Text) (fs : List (Text × Text))
      → Named i
      → Named j
      → lookup (path env j) (saved_files i t fs)
        ≡ (if text_eq i j then some t else lookup (path env j) fs)
  unfolding saved_files
  lookup-saved_files i j t fs hi hj =
      let p = path env j in
      let tmp = tmp_path env i in
      lookup-insert (path env i) p t (delete tmp (insert tmp t fs))
      ∙ rw
          (
            path_eq env Named Cp usable i j hi hj,
            lookup-delete tmp p (insert tmp t fs),
            tmp_eq env Named Cp usable i j hi hj,
            torn_same i j (some t) fs hi hj,
          )
          refl

  pub saved-Represents :
      (c : Checkpoint) (m : Checkpoints) (d : Disk) (n : ℕ)
      → Cp c
      → Represents env Named Cp d m
      → Represents env Named Cp
          (record { files = saved_files c.operation_id (env.encode c) d.files; calls = n })
          (insert c.operation_id c m)
  saved-Represents c m d n k (rep, good) = (
    λ j hj.
        lookup-saved_files c.operation_id j (env.encode c) d.files (usable.id_of c k) hj
        ∙ rw (lookup-insert c.operation_id j c m, rep j hj) (by_test (text_eq c.operation_id j) j),
    λ j x h. kept (text_eq c.operation_id j) j x (sym (lookup-insert c.operation_id j c m) ∙ h),
  )
    where
      by_test :
          (b : Bool) (j : Text)
          → (if b then some (env.encode c) else encoded env (lookup j m))
            ≡ encoded env (if b then some c else lookup j m)
      by_test true j = refl
      by_test false j = refl

      kept :
          (b : Bool) (j : Text) (x : Checkpoint)
          → (if b then some c else lookup j m) ≡ some x
          → Cp x
      kept true j x h = subst Cp (cc) k
      kept false j x h = good j x h

  -- The rename of a whole temporary file: an error and no change, or the new file.
  pub rename_lem :
      (i t : Text) (fs : List (Text × Text)) (n : ℕ)
      → let d : Disk = record { files = insert (tmp_path env i) t fs; calls = n } in
        ((e : Text) × (rename env.faults (tmp_path env i) (path env i) d ≡ (some e, called d)))
        ⊎ (rename env.faults (tmp_path env i) (path env i) d
            ≡ (none, record { files = saved_files i t fs; calls = suc n }))
  unfolding rename saved_files
  rename_lem i t fs n = elim (Option-cases (env.faults.rename_err n)) [
    | inr (e, q) ↦ inl (e, rw (q, rename) refl)
    | inl q ↦ inr (rw (q, rename) (rw (lookup-insert_self (tmp_path env i) t fs) refl))
  ]
