-- ===== src/Rollback/Written.antt =====
-- What the manager of internal/checkpoint leaves on the disk.
use mysql_pitr.Base.{
  ℕ, suc, ◌≡◌, ◌≢◌, ◌⊎◌, refl, sym, ap, ◌∙◌, inl, inr, if◌then◌else◌, false, List, Option, none,
  some, Option-cases,
}
use mathlib.Core.Path.{subst}
use mysql_pitr.Base.Text.{Text, text_eq}
use mysql_pitr.Base.Int.{ℤ}
use mysql_pitr.Binlog.Types.{Time}
use mysql_pitr.Base.Result.{Result, ok, err, ok-injective}
use mysql_pitr.Base.Dict.{lookup, insert, delete, lookup-insert, lookup-delete, lookup-insert_self}
use mysql_pitr.Disk.{Disk, Faults, called, torn_files, read_file, write_file, rename, remove}
use mysql_pitr.Rollback.{
  RollbackCheckpoint, ManagerEnv, checkpoint_path, tmp_path, atomic_write, read_checkpoint, change,
  update_batch,
}

-- No file but the temporary one has changed.
abbrev Untouched : Text → Disk → Disk → Type 0
Untouched tmp d d' = (p : Text) → text_eq tmp p ≡ false → lookup p d'.files ≡ lookup p d.files

-- Either there is no error, and the file has the new contents; or there is one, and it is as it was.
-- No other file but the temporary one has changed.
abbrev pub Written : Text → Text → Text → Disk → Option Text × Disk → Type 0
Written tmp path t d (e, d') =
    ((e ≡ none)
      × (lookup path d'.files ≡ some t)
      × ((p : Text)
          → text_eq tmp p ≡ false
          → text_eq path p ≡ false
          → lookup p d'.files ≡ lookup p d.files))
    ⊎ ((e ≢ none) × Untouched tmp d d')

some≢none : (e : Text) → some e ≢ none
some≢none e h = cc

module _ (env : Faults) where
  remove-Untouched : (tmp : Text) (d : Disk) → Untouched tmp d (remove env tmp d).1
  unfolding remove
  remove-Untouched tmp d p h = elim (Option-cases (env.remove_err d.calls)) [
    | inr (e, q) ↦ rw (q, remove) refl
    | inl q ↦
        rw (q, remove)
          (lookup-delete tmp p d.files ∙ ap (λ b. if b then none else lookup p d.files) h)
  ]

torn-Untouched :
    (tmp : Text) (t : Option Text) (d : Disk) (n : ℕ)
    → Untouched tmp d (record { files = torn_files tmp t d.files; calls = n })
torn-Untouched tmp none d n p h = refl
torn-Untouched tmp (some t) d n p h =
    lookup-insert tmp p t d.files ∙ ap (λ b. if b then some t else lookup p d.files) h

module _ (env : ManagerEnv) where
  -- The rename of a whole temporary file: an error and no change, or the new file.
  rename_lem :
      (tmp path t : Text) (fs : List (Text × Text)) (n : ℕ)
      → let d : Disk = record { files = insert tmp t fs; calls = n } in
        ((e : Text) × (rename env.faults tmp path d ≡ (some e, called d)))
        ⊎ (rename env.faults tmp path d ≡ (
          none,
          record { files = insert path t (delete tmp (insert tmp t fs)); calls = suc n },
        ))
  unfolding rename
  rename_lem tmp path t fs n = elim (Option-cases (env.faults.rename_err n)) [
    | inr (e, q) ↦ inl (e, rw (q, rename) refl)
    | inl q ↦ inr (rw (q, rename) (rw (lookup-insert_self tmp t fs) refl))
  ]

  moved_files :
      (tmp path t p : Text) (d : Disk)
      → text_eq tmp p ≡ false
      → text_eq path p ≡ false
      → lookup p (insert path t (delete tmp (insert tmp t d.files))) ≡ lookup p d.files
  moved_files tmp path t p d h k =
      lookup-insert path p t (delete tmp (insert tmp t d.files))
      ∙ rw (k, lookup-delete tmp p (insert tmp t d.files), h) (torn-Untouched tmp (some t) d 0 p h)

  -- Writing a checkpoint is atomic, whichever call fails, a torn write included: it reports no error,
  -- and the file of the checkpoint has the new contents; or it reports one, and the file is as it was.
  -- No other file but the temporary one of the checkpoint changes.
  pub atomic_write-Written :
      (cp : RollbackCheckpoint) (d : Disk)
      → Written
          (tmp_path env cp.recovery_id)
          (checkpoint_path env cp.recovery_id)
          (env.encode cp)
          d
          (atomic_write env cp d)
  unfolding atomic_write write_file
  atomic_write-Written cp d =
      let tmp = tmp_path env cp.recovery_id in
      let path = checkpoint_path env cp.recovery_id in
      let t = env.encode cp in
      elim (Option-cases (env.faults.write_err d.calls)) [
        | inr (e, q) ↦
            rw (q, atomic_write, write_file)
              (inr (some≢none _, torn-Untouched tmp (env.faults.torn d.calls) d d.calls))
        | inl q ↦
            rw (q, atomic_write, write_file)
              (elim (rename_lem tmp path t d.files (suc d.calls)) [
                | inl (e, r) ↦ rw r (
                    inr (
                      some≢none _,
                      λ p h.
                          remove-Untouched env.faults tmp _ p h
                          ∙ torn-Untouched tmp (some t) d d.calls p h,
                    ))
                | inr r ↦ rw r (
                    inl (
                      refl,
                      lookup-insert_self path t (delete tmp (insert tmp t d.files)),
                      λ p h k. moved_files tmp path t p d h k,
                    ))
              ])
      ]

module _ (env : ManagerEnv) where
  lookup-Written :
      (tmp path t : Text) (d : Disk) (r : Option Text × Disk)
      → Written tmp path t d r
      → r.0 ≡ none
      → lookup path r.1.files ≡ some t
  lookup-Written tmp path t d (e, d') (inl (n, now, others)) h = now
  lookup-Written tmp path t d (e, d') (inr (n, same)) h = elim (n h) [ ]

  -- The checkpoint that was written is the one that is read.
  read_checkpoint-atomic_write :
      (cp : RollbackCheckpoint) (id : Text) (d : Disk)
      → cp.recovery_id ≡ id
      → env.decode (env.encode cp) ≡ ok cp
      → (atomic_write env cp d).0 ≡ none
      → env.faults.read_err (atomic_write env cp d).1.calls ≡ none
      → (read_checkpoint env id (atomic_write env cp d).1).0 ≡ ok cp
  unfolding read_checkpoint read_file
  read_checkpoint-atomic_write cp id d same h e q =
      let stored =
        lookup-Written (tmp_path env cp.recovery_id) (checkpoint_path env cp.recovery_id)
          (env.encode cp) d (atomic_write env cp d) (atomic_write-Written env cp d) e in
      rw
        (
          q,
          read_checkpoint,
          read_file,
          ap (λ i. lookup (checkpoint_path env i) (atomic_write env cp d).1.files) (sym same)
              ∙ stored,
        )
        (rw h refl)

  change-read :
      (f : RollbackCheckpoint → RollbackCheckpoint) (cp : RollbackCheckpoint) (id : Text)
      (r : Result RollbackCheckpoint × Disk)
      → r.0 ≡ ok cp
      → (f cp).recovery_id ≡ id
      → env.decode (env.encode (f cp)) ≡ ok (f cp)
      → (change env f r).0 ≡ none
      → env.faults.read_err (change env f r).1.calls ≡ none
      → (read_checkpoint env id (change env f r).1).0 ≡ ok (f cp)
  unfolding change
  change-read f cp id (ok cp', d) e same law w q =
      let here = ok-injective e in
      subst
        (λ x.
          (f x).recovery_id ≡ id
          → env.decode (env.encode (f x)) ≡ ok (f x)
          → (read_checkpoint env id (atomic_write env (f cp') d).1).0 ≡ ok (f x))
        here (λ a b. read_checkpoint-atomic_write (f cp') id d a b w q) same law
  change-read f cp id (err x, d) e same law w q = cc

  abbrev pub progressed : RollbackCheckpoint → ℤ → Time → RollbackCheckpoint
  progressed cp n t = record cp { completed_batches = n; last_commit_at = t }

  -- A progress that UpdateBatch reports without an error is the one that is read behind it, if the
  -- reading does not fail: the checkpoint that was read before, with the number of batches. The
  -- checkpoint has the identifier that it is stored under, and is decoded to what was encoded.
  pub update_batch-read :
      (cp : RollbackCheckpoint) (id : Text) (n : ℤ) (d : Disk)
      → (read_checkpoint env id d).0 ≡ ok cp
      → cp.recovery_id ≡ id
      → env.decode (env.encode (progressed cp n (env.now d.calls)))
        ≡ ok (progressed cp n (env.now d.calls))
      → (update_batch env id n d).0 ≡ none
      → env.faults.read_err (update_batch env id n d).1.calls ≡ none
      → (read_checkpoint env id (update_batch env id n d).1).0
        ≡ ok (progressed cp n (env.now d.calls))
  unfolding update_batch
  update_batch-read cp id n d e same law w q =
      change-read (λ c. progressed c n (env.now d.calls)) cp id (read_checkpoint env id d) e same
        law w q
