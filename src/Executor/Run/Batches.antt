-- ===== src/Executor/Run/Batches.antt =====
-- One batch of internal/executor/executor.go: what the inner loop sends and records.
use mysql_pitr.Base.{
  ℕ, suc, ◌+◌, ◌%◌, ◌^◌, ◌≡◌, refl, ap, ◌∙◌, sym, Bool, true, false, inl, inr, none, some, List, [],
  ◌∷◌, ◌++◌, arith, append_assoc, append-nil, if◌then◌else◌, Bool-cases,
}
use mysql_pitr.Base.Text.{is_empty}
use mysql_pitr.Reverse.Types.{Statement}
use mysql_pitr.Executor.Types.{ExecResult, exec_failed, executed, checked, Env}
use mysql_pitr.Executor.Run.{Batch, observe, exec_one, exec_batch, record_result}
use mysql_pitr.Executor.Run.Trace.{
  Ran, open_of, committed_of, numbered, keys, failures, total_rows, keys-append, failures-append,
  total_rows-append,
}

-- From `b` to `r` the statements `rs` were sent, in this order, and recorded; none was committed.
pub record Sends {S : Type 0} (b r : Batch S) (rs : List Ran) : Type 0 where
  pub commits : committed_of r.world.history ≡ committed_of b.world.history
  pub opens : open_of r.world.history ≡ open_of b.world.history ++ rs
  pub errors : r.errs ≡ b.errs ++ failures rs
  pub rows : r.rows % 2 ^ 64 ≡ (b.rows + total_rows rs) % 2 ^ 64
  pub store : r.world.store ≡ b.world.store

Sends-trans :
    {S : Type 0} {a b c : Batch S} (rs ss : List Ran)
    → Sends a b rs
    → Sends b c ss
    → Sends a c (rs ++ ss)
Sends-trans {a} {b} {c} rs ss p q = record {
  commits = q.commits ∙ p.commits;
  opens = rw (q.opens, p.opens) (append_assoc (open_of a.world.history) rs ss);
  errors =
      rw (q.errors, p.errors, failures-append rs ss)
        (append_assoc a.errs (failures rs) (failures ss));
  rows = omega (arith, p.rows, q.rows, total_rows-append rs ss);
  store = q.store ∙ p.store;
}

Sends-refl : {S : Type 0} (b : Batch S) → Sends b b []
Sends-refl b = record {
  commits = refl;
  opens = sym (append-nil (open_of b.world.history));
  errors = sym (append-nil b.errs);
  rows = omega arith;
  store = refl;
}

abbrev check : {S : Type 0} → Bool → Batch S → Batch S
check c b = record b { world = observe (checked c) b.world }

check-Sends : {S : Type 0} (b : Batch S) → Sends b (check false b) []
check-Sends b = record {
  commits = refl;
  opens = sym (append-nil (open_of b.world.history));
  errors = sym (append-nil b.errs);
  rows = omega arith;
  store = refl;
}

cancelled-Sends : {S : Type 0} (b : Batch S) → Sends b (record (check true b) { aborted = true }) []
cancelled-Sends b = record {
  commits = refl;
  opens = sym (append-nil (open_of b.world.history));
  errors = sym (append-nil b.errs);
  rows = omega arith;
  store = refl;
}

module _ {S : Type 0} (env : Env S) where
  record_result-Sends :
      (i : ℕ) (st : Statement) (b : Batch S) (r : ExecResult)
      → Sends b (record_result env i st b r) (record { index = i; sql = st.sql; result = r } ∷ [])
  record_result-Sends i st b (exec_failed e) = record {
    commits = refl;
    opens = refl;
    errors = refl;
    rows = omega arith;
    store = refl;
  }
  record_result-Sends i st b (executed none) = record {
    commits = refl;
    opens = refl;
    errors = sym (append-nil b.errs);
    rows = omega arith;
    store = refl;
  }
  record_result-Sends i st b (executed (some n)) = record {
    commits = refl;
    opens = refl;
    errors = sym (append-nil b.errs);
    rows = omega arith;
    store = refl;
  }

  -- What `exec_one` sends: nothing for an empty text.
  abbrev sent : ℕ → Statement → Batch S → List Ran
  sent i st b =
      if is_empty st.sql
      then []
      else record { index = i; sql = st.sql; result = env.exec b.world.history st.sql } ∷ []

  exec_one-Sends :
      (i : ℕ) (st : Statement) (b : Batch S) → Sends b (exec_one env i st b) (sent i st b)
  unfolding exec_one
  exec_one-Sends i st b = elim (Bool-cases (is_empty st.sql)) [
    | inl e ↦ rw (e, exec_one) (Sends-refl b)
    | inr e ↦ rw (e, exec_one) (record_result-Sends i st b (env.exec b.world.history st.sql))
  ]

  exec_one-aborted :
      (i : ℕ) (st : Statement) (b : Batch S) → (exec_one env i st b).aborted ≡ b.aborted
  unfolding exec_one
  exec_one-aborted i st b = ground arith

  sent-numbered :
      (i : ℕ) (st : Statement) (sts : List Statement) (b : Batch S)
      → keys (sent i st b) ++ numbered (suc i) sts ≡ numbered i (st ∷ sts)
  sent-numbered i st sts b = ground arith

  exec_batch_live :
      (i : ℕ) (st : Statement) (sts : List Statement) (b : Batch S)
      → env.is_cancelled b.world.history ≡ false
      → exec_batch env i (st ∷ sts) b
        ≡ exec_batch env (suc i) sts (exec_one env i st (check false b))
  unfolding exec_batch
  exec_batch_live i st sts b e = ground arith

  exec_batch_cancelled :
      (i : ℕ) (st : Statement) (sts : List Statement) (b : Batch S)
      → env.is_cancelled b.world.history ≡ true
      → exec_batch env i (st ∷ sts) b ≡ record (check true b) { aborted = true }
  unfolding exec_batch
  exec_batch_cancelled i st sts b e = ground arith

  -- The inner loop sends a part of the batch, and all of it unless it is cancelled.
  pub exec_batch-Sends :
      (i : ℕ) (sts : List Statement) (b : Batch S)
      → b.aborted ≡ false
      → (rs : List Ran) × Sends b (exec_batch env i sts b) rs
        × ((exec_batch env i sts b).aborted ≡ false → keys rs ≡ numbered i sts)
  unfolding exec_batch
  exec_batch-Sends i [] b a = ([], Sends-refl b, λ q. refl)
  exec_batch-Sends i (st ∷ sts) b a = elim (Bool-cases (env.is_cancelled b.world.history)) [
    | inl e ↦ rw (exec_batch_cancelled i st sts b e) ([], cancelled-Sends b, λ q. cc)
    | inr e ↦
        let b' = exec_one env i st (check false b) in
        let (rs, p, k) =
          exec_batch-Sends (suc i) sts b' (exec_one-aborted i st (check false b) ∙ a) in
        rw (exec_batch_live i st sts b e) (
          sent i st (check false b) ++ rs,
          Sends-trans [] _ (check-Sends b)
              (Sends-trans _ rs (exec_one-Sends i st (check false b)) p),
          λ q.
              keys-append (sent i st (check false b)) rs
              ∙ ap (◌++◌ (keys (sent i st (check false b)))) (k q)
              ∙ sent-numbered i st sts (check false b),
        )
  ]
