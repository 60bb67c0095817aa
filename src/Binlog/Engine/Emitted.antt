-- ===== src/Binlog/Engine/Emitted.antt =====
-- What a scan of internal/binlog/engine.go sends.
use mysql_pitr.Base.{
  ◌||◌, ℕ, ◌≤◌, ◌<◌, ◌≡◌, ◌≢◌, inl, inr, refl, sym, ◌∙◌, true, List, [], ◌∷◌, Option, none, some,
  arith, ltb, Bool-cases, List-cases, length, take, All, All-append, lt→ltb, ltb-false, length-take,
  take_all,
}
use mysql_pitr.Base.Text.{Text, codes, text_eq}
use mysql_pitr.Base.Int.{ℤ, pos}
use mysql_pitr.Base.Result.{Result, ok, err, Result-cases}
use mysql_pitr.Binlog.Types.{Transaction, Filter, RowChange}
use mysql_pitr.Binlog.Library.{Library}
use mysql_pitr.Binlog.Transaction.{new_transaction}
use mysql_pitr.Binlog.Filter.{matches_filter}
use mysql_pitr.Binlog.Engine.{
  EventType, EventBody, Event, PendingTx, Scan, format_description, rotate, mariadb_gtid,
  other_body, table_map, rows, query, xid, gtid, row_change_from_event, row_limit, truncate,
  sealed_tx, send, emit, sent, close_tx, at_time, handle_query, handle_body, handle_event, add_rows,
}

cons_ne_nil : {x : RowChange} {xs : List RowChange} → x ∷ xs ≢ []
cons_ne_nil e = cc

module _ {G : Type 0} (lib : Library G) (max_rows : ℤ) (f : Filter G) where
  -- A transaction that passed the filter with some row changes, cut to the limit.
  abbrev pub IsEmitted : Transaction → Type 0
  IsEmitted tx =
      (full : Transaction) × (matches_filter lib full f ≡ true)
      × (full.statements ≢ [])
      × (tx ≡ truncate (row_limit lib max_rows f) full)

  sealed_tx-statements :
      (p : PendingTx) (tx : Transaction)
      → sealed_tx lib max_rows f p ≡ ok tx
      → tx.statements ≡ p.rows
  unfolding sealed_tx new_transaction
  sealed_tx-statements p tx h = ground arith

  -- A step that ends without an error leaves only such transactions.
  abbrev Sound : Result (List Transaction) → Type 0
  Sound (err e) = Unit
  Sound (ok out) = All IsEmitted out

  send-Sound :
      (tx : Transaction) (out : List Transaction)
      → tx.statements ≢ []
      → All IsEmitted out
      → Sound (send lib max_rows f (ok tx) out)
  send-Sound tx out h a = elim (Bool-cases (matches_filter lib tx f)) [
    | inl e ↦ rw e (All-append IsEmitted out _ a ((tx, e, h, refl), tt))
    | inr e ↦ rw e a
  ]

  emit-Sound :
      (p : PendingTx) (out : List Transaction)
      → All IsEmitted out
      → Sound (emit lib max_rows f p out)
  unfolding emit
  emit-Sound p out a = elim (List-cases p.rows) [
    | inl e ↦ rw (e, emit) a
    | inr (r, rs, e) ↦ elim (Result-cases (sealed_tx lib max_rows f p)) [
      | inl (tx, q) ↦
          rw (e, emit)
            (rw q (
              send-Sound tx out
                (λ z. absurd (cons_ne_nil (sym e ∙ sym (sealed_tx-statements p tx q) ∙ z))) a))
      | inr (x, q) ↦ rw (e, emit) (rw q tt)
    ]
  ]

  abbrev pub SoundScan : Result Scan → Type 0
  SoundScan (err e) = Unit
  SoundScan (ok s) = All IsEmitted s.out

  sent-Sound : (s : Scan) (r : Result (List Transaction)) → Sound r → SoundScan (sent s r)
  sent-Sound s (err e) h = tt
  sent-Sound s (ok out) h = h

  close_tx-Sound :
      (p : Option PendingTx) (s : Scan)
      → All IsEmitted s.out
      → SoundScan (close_tx lib max_rows f p s)
  close_tx-Sound none s a = a
  close_tx-Sound (some p) s a = sent-Sound s (emit lib max_rows f p s.out) (emit-Sound p s.out a)

  handle_query-Sound :
      (ts : ℕ) (schema q : Text) (s : Scan)
      → All IsEmitted s.out
      → SoundScan (handle_query lib max_rows f ts schema q s)
  unfolding handle_query
  handle_query-Sound ts schema q s a = elim (Bool-cases (text_eq q (codes "BEGIN"))) [
    | inl b ↦ rw (b, handle_query) a
    | inr b ↦ elim (Bool-cases (text_eq q (codes "COMMIT"))) [
      | inl c ↦ rw (b, handle_query) (rw c (close_tx-Sound (at_time ts s.pending) s a))
      | inr c ↦ rw (b, handle_query) (rw c (close_tx-Sound s.pending s a))
    ]
  ]

  add_rows-out : (r : Option (List RowChange)) (s : Scan) → (add_rows r s).out ≡ s.out
  add_rows-out none s = refl
  add_rows-out (some rcs) s = refl

  handle_body-Sound :
      (ty : EventType) (ts : ℕ) (b : EventBody) (s : Scan)
      → All IsEmitted s.out
      → SoundScan (handle_body lib max_rows f ty ts b s)
  unfolding handle_body
  handle_body-Sound ty ts format_description s a = a
  handle_body-Sound ty ts rotate s a = a
  handle_body-Sound ty ts (table_map id tm) s a = a
  handle_body-Sound ty ts (rows id images) s a =
      rw (add_rows-out (row_change_from_event id images ty s.table_maps) s) a
  handle_body-Sound ty ts (query schema q) s a = handle_query-Sound ts schema q s a
  handle_body-Sound ty ts (xid x) s a = close_tx-Sound _ s a
  handle_body-Sound ty ts (gtid sid gno) s a = a
  handle_body-Sound ty ts mariadb_gtid s a = a
  handle_body-Sound ty ts other_body s a = a

  -- Every event keeps it that only such transactions were sent.
  pub handle_event-Sound :
      (ev : Event) (s : Scan) → All IsEmitted s.out → SoundScan (handle_event lib max_rows f ev s)
  unfolding handle_event
  handle_event-Sound ev s a = handle_body-Sound ev.event_type ev.timestamp ev.body s a

-- A transaction cut to a positive limit keeps its first row changes, at most that many, and is
-- marked as truncated exactly if some were cut off or it was marked before.
pub truncate_lem :
    (n : ℕ) (tx : Transaction)
    → 0 < n
    → ((truncate (pos n) tx).statements ≡ take n tx.statements)
      × (length (truncate (pos n) tx).statements ≤ n)
      × ((truncate (pos n) tx).truncated ≡ (ltb n (length tx.statements) || tx.truncated))
truncate_lem n tx h = elim (Bool-cases (ltb n (length tx.statements))) [
  | inl c ↦ rw (lt→ltb 0 n h) (rw c (refl, omega (arith, length-take n tx.statements), refl))
  | inr c ↦
      let short = ltb-false n (length tx.statements) c in
      rw (lt→ltb 0 n h) (rw c (sym (take_all n tx.statements short), short, refl))
]
