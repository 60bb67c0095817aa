-- ===== src/Binlog/Engine/Segments/Closing.antt =====
-- The commit of a transaction in internal/binlog/engine.go.
use mysql_pitr.Base.{
  ℕ, ◌≡◌, inl, inr, refl, ap, sym, ◌∙◌, false, List, [], ◌∷◌, ◌++◌, arith, ◌==◌, if◌then◌else◌,
  Bool-cases, Option-cases, append-nil,
}
use mysql_pitr.Base.Text.{Text}
use mysql_pitr.Base.Int.{ℤ}
use mysql_pitr.Base.Result.{ok}
use mysql_pitr.Binlog.Types.{Transaction, Filter, RowChange}
use mysql_pitr.Binlog.Library.{Library}
use mysql_pitr.Binlog.Transaction.{new_transaction, first_tx_id}
use mysql_pitr.Binlog.Filter.{matches_filter}
use mysql_pitr.Binlog.Engine.{
  PendingTx, format_gtid, is_zero_sid, event_time, empty_tx, sealed_tx, sealed_at, with_statements,
  emit, with_gtid, send,
}
use mysql_pitr.Binlog.Engine.Segments.{changes_rows, Segment, gtid_of, transaction_of, kept}

module _ {G : Type 0} (lib : Library G) (max_rows : ℤ) (f : Filter G) where
  -- The pending transaction at the commit of a segment.
  abbrev pub closing : Segment → PendingTx
  closing g = record {
    schema = g.schema;
    rows = changes_rows g.changes;
    xid = g.xid_number;
    gtid = gtid_of lib max_rows f g.sid g.gno;
    commit_ts = event_time g.timestamp;
  }

  new_transaction-later :
      (id : Text) (x ts : ℕ) (schema : Text)
      → (ts == 0) ≡ false
      → new_transaction lib id x ts schema
        ≡ ok (record {
          tx_id = first_tx_id lib id x;
          gtid = id;
          xid = x;
          commit_time = ts;
          schema = schema;
          statements = [];
          truncated = false;
        })
  unfolding new_transaction
  new_transaction-later id x ts schema e = rw e refl

  sealed_at-closing :
      (g : Segment)
      → (event_time g.timestamp == 0) ≡ false
      → sealed_at lib max_rows f (event_time g.timestamp) (closing g)
        ≡ ok (transaction_of lib max_rows f g)
  unfolding transaction_of
  sealed_at-closing g e = ap (with_statements lib max_rows f (closing g)) (
      new_transaction-later (gtid_of lib max_rows f g.sid g.gno) g.xid_number
        (event_time g.timestamp) g.schema e)

  sealed_tx-closing :
      (g : Segment) → sealed_tx lib max_rows f (closing g) ≡ ok (transaction_of lib max_rows f g)
  unfolding sealed_tx
  sealed_tx-closing g =
      let later : (event_time g.timestamp == 0) ≡ false = ground arith in
      ap (λ b. sealed_at lib max_rows f (if b then lib.now else event_time g.timestamp) (closing g))
        later
      ∙ sealed_at-closing g later

  pub with_gtid_empty :
      (sid : Text) (gno : ℤ)
      → with_gtid lib max_rows f sid gno empty_tx
        ≡ record empty_tx { gtid = gtid_of lib max_rows f sid gno }
  with_gtid_empty sid gno = elim (Bool-cases (is_zero_sid sid)) [
    | inl z ↦ rw z refl
    | inr z ↦ elim (Option-cases (lib.parse_mysql (format_gtid sid gno))) [
      | inl e ↦ rw z (rw e refl)
      | inr (gs, e) ↦ rw z (rw e refl)
    ]
  ]

  send-kept :
      (tx : Transaction) (out : List Transaction) (r : RowChange) (rs : List RowChange)
      → send lib max_rows f (ok tx) out ≡ ok (out ++ kept lib max_rows f tx (r ∷ rs))
  send-kept tx out r rs = elim (Bool-cases (matches_filter lib tx f)) [
    | inl e ↦ rw e
    | inr e ↦ rw e (ap ok (sym (append-nil out)))
  ]

  emit-kept :
      (p : PendingTx) (tx : Transaction) (out : List Transaction) (xs : List RowChange)
      → p.rows ≡ xs
      → sealed_tx lib max_rows f p ≡ ok tx
      → emit lib max_rows f p out ≡ ok (out ++ kept lib max_rows f tx xs)
  unfolding emit
  emit-kept p tx out [] e q = rw (e, emit) (ap ok (sym (append-nil out)))
  emit-kept p tx out (r ∷ rs) e q = rw (e, emit) (rw q (send-kept tx out r rs))

  transaction_of-statements :
      (g : Segment) → (transaction_of lib max_rows f g).statements ≡ changes_rows g.changes
  unfolding transaction_of
  transaction_of-statements g = refl

  pub emit-closing :
      (g : Segment) (out : List Transaction)
      → emit lib max_rows f (closing g) out
        ≡ ok (
            out
            ++ kept lib max_rows f
                (transaction_of lib max_rows f g)
                (transaction_of lib max_rows f g).statements)
  emit-closing g out =
      emit-kept (closing g) (transaction_of lib max_rows f g) out
        (transaction_of lib max_rows f g).statements (sym (transaction_of-statements g))
        (sealed_tx-closing g)
