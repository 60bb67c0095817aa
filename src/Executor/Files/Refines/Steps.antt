-- ===== src/Executor/Files/Refines/Steps.antt =====
-- Each call of the checkpoint store on files (internal/executor/file_store.go) is a call of the store
-- in memory.
use mysql_pitr.Base.{
  ℕ, suc, ◌≡◌, ◌≢◌, refl, sym, ◌∙◌, inl, inr, Bool, true, false, List, [], ◌∷◌, Option, none, some,
  if◌then◌else◌, Bool-cases, Option-cases,
}
use mathlib.Core.Path.{subst}
use mysql_pitr.Base.Text.{Text, codes, is_empty, text_eq}
use mysql_pitr.Base.Dict.{lookup, insert, delete, lookup-delete}
use mysql_pitr.Executor.Types.{Checkpoint}
use mysql_pitr.Executor.Store.{Checkpoints, load, save, clear}
use mysql_pitr.Disk.{Disk, called, read_of, read_file, write_file, remove}
use mysql_pitr.Executor.Files.{
  FileEnv, path, tmp_path, failed_on, load_result, file_load, commit_file, file_save, file_clear,
}
use mysql_pitr.Executor.Files.Refines.{
  StoreCall, load_call, save_call, clear_call, StoreAnswer, loaded, stored, Allowed, loads,
  load_fails, saves, save_fails, clears, clear_fails, IsUsable, encoded, Represents, path_eq,
  file_call, file_calls, IsUsed, AllUsed, Trace, done, step,
}
use mysql_pitr.Executor.Files.Refines.Saved.{torn_same, saved-Represents, rename_lem}

none≢some : (x : Checkpoint) → none ≢ some x
none≢some x q = cc

module _ (env : FileEnv) (Named : Text → Type 0) (Cp : Checkpoint → Type 0)
    (usable : IsUsable env Named Cp) where
  -- A call is allowed for the store in memory, and the disk represents what it leaves.
  abbrev pub Refined : Checkpoints → StoreCall → StoreAnswer × Disk → Type 0
  Refined m q (a, d) = (m' : Checkpoints) × Allowed m q a m' × Represents env Named Cp d m'

  same_files :
      (m : Checkpoints) (d : Disk) (fs : List (Text × Text)) (n : ℕ)
      → Represents env Named Cp d m
      → ((id : Text) → Named id → lookup (path env id) fs ≡ lookup (path env id) d.files)
      → Represents env Named Cp (record { files = fs; calls = n }) m
  same_files m d fs n (rep, good) h = (λ id k. h id k ∙ rep id k, good)

  file_load-Refined :
      (id : Text) (m : Checkpoints) (d : Disk)
      → Named id
      → Represents env Named Cp d m
      → Refined m (load_call id) (file_call env (load_call id) d)
  unfolding file_call file_load read_file load
  file_load-Refined id m d k (rep, good) = elim (Option-cases (env.faults.read_err d.calls)) [
    | inr (e, h) ↦
        rw (h, read_file) (m, load_fails m id (failed_on env (codes "load") id e), (rep, good))
    | inl h ↦
        rw (h, read_file)
          (
            m,
            subst (λ r. Allowed m (load_call id) (loaded r) m) (sym (answer (lookup id m) refl))
                (loads m id),
            (rep, good),
          )
  ]
    where
      answer :
          (r : Option Checkpoint)
          → lookup id m ≡ r
          → load_result env id (read_of (lookup (path env id) d.files)) ≡ load id m
      answer none h = rw (rep id k, h, load) refl
      answer (some c) h = rw (rep id k, h, load) (rw (usable.decoded c (good id c h)) refl)

  -- From the rename of a whole temporary file on.
  commit_file-Refined :
      (c : Checkpoint) (m : Checkpoints) (d : Disk)
      → is_empty c.operation_id ≡ false
      → Cp c
      → Represents env Named Cp d m
      → let d1 : Disk = record (called d) {
        files = insert (tmp_path env c.operation_id) (env.encode c) d.files;
      } in
        let (e, d2) = commit_file env c (none, d1) in Refined m (save_call c) (stored e, d2)
  unfolding save
  commit_file-Refined c m d z k rep =
      elim (rename_lem env Named Cp usable c.operation_id (env.encode c) d.files (suc d.calls)) [
        | inl (e, q) ↦ rw q (
          m,
          save_fails m c _,
          same_files m d _ d.calls rep (λ j hj.
              torn_same env Named Cp usable c.operation_id j (some (env.encode c)) d.files
                (usable.id_of c k) hj),
        )
        | inr q ↦ rw q (
          (save c m).0,
          subst (λ b. Allowed m (save_call c) (stored b) (save c m).0) (rw (z, save) refl)
              (saves m c),
          rw (z, save) (saved-Represents env Named Cp usable c m d d.calls k rep),
        )
      ]

  file_save-Refined :
      (c : Checkpoint) (m : Checkpoints) (d : Disk)
      → Cp c
      → Represents env Named Cp d m
      → Refined m (save_call c) (file_call env (save_call c) d)
  unfolding file_call file_save write_file
  file_save-Refined c m d k rep = elim (Bool-cases (is_empty c.operation_id)) [
    | inl z ↦ rw (z, file_save) (m, save_fails m c _, rep)
    | inr z ↦ elim (Option-cases (env.faults.write_err d.calls)) [
      | inr (e, h) ↦
          rw (z, file_save)
            (rw (h, write_file)
              (
                m,
                save_fails m c _,
                same_files m d _ d.calls rep (λ j hj.
                    torn_same env Named Cp usable c.operation_id j (env.faults.torn d.calls) d.files
                      (usable.id_of c k) hj),
              ))
      | inl h ↦ rw (z, file_save) (rw (h, write_file) (commit_file-Refined c m d z k rep))
    ]
  ]

  file_clear-Refined :
      (id : Text) (m : Checkpoints) (d : Disk)
      → Named id
      → Represents env Named Cp d m
      → Refined m (clear_call id) (file_call env (clear_call id) d)
  unfolding file_call file_clear remove clear
  file_clear-Refined id m d k (rep, good) = elim (Option-cases (env.faults.remove_err d.calls)) [
    | inr (e, h) ↦ rw (h, remove, file_clear, file_call) (m, clear_fails m id _, (rep, good))
    | inl h ↦
        rw (h, remove, file_clear, file_call)
          (
            delete id m,
            clears m id,
            (
              λ j hj.
                  lookup-delete (path env id) (path env j) d.files
                  ∙ rw (path_eq env Named Cp usable id j k hj, lookup-delete id j m, rep j hj)
                      (by_test (text_eq id j) j),
              λ j x q. kept (text_eq id j) j x (sym (lookup-delete id j m) ∙ q),
            ),
          )
  ]
    where
      by_test :
          (b : Bool) (j : Text)
          → (if b then none else encoded env (lookup j m))
            ≡ encoded env (if b then none else lookup j m)
      by_test true j = refl
      by_test false j = refl

      kept :
          (b : Bool) (j : Text) (x : Checkpoint) → (if b then none else lookup j m) ≡ some x → Cp x
      kept true j x q = elim (none≢some x q) [ ]
      kept false j x q = good j x q

  file_call-Refined :
      (q : StoreCall) (m : Checkpoints) (d : Disk)
      → IsUsed env Named Cp q
      → Represents env Named Cp d m
      → Refined m q (file_call env q d)
  file_call-Refined (load_call id) m d k rep = file_load-Refined id m d k rep
  file_call-Refined (save_call c) m d k rep = file_save-Refined c m d k rep
  file_call-Refined (clear_call id) m d k rep = file_clear-Refined id m d k rep

  -- On operations and checkpoints that the store can be used with, from a disk that holds the
  -- checkpoints of a store in memory: whatever calls are made, and whichever calls of the operating
  -- system fail, a torn write included, the answers are those of the store in memory, where a call may
  -- fail and then changes nothing; and the disk again holds the checkpoints of that store.
  pub file_calls-Trace :
      (qs : List StoreCall) (m : Checkpoints) (d : Disk)
      → AllUsed env Named Cp qs
      → Represents env Named Cp d m
      → (m' : Checkpoints) × Trace m (file_calls env qs d).0 m'
        × Represents env Named Cp (file_calls env qs d).1 m'
  unfolding file_calls
  file_calls-Trace [] m d u rep = (m, done m, rep)
  file_calls-Trace (q ∷ qs) m d (k, u) rep =
      let (m', a, rep') = file_call-Refined q m d k rep in
      let (m'', t, rep'') = file_calls-Trace qs m' (file_call env q d).1 u rep' in
      (m'', step m m' m'' q _ _ a t, rep'')
