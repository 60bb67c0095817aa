-- ===== src/Binlog/Engine/Segments/Sent.antt =====
-- What a scan of internal/binlog/engine.go sends for whole transactions.
use mysql_pitr.Base.{ℕ, ◌≡◌, ap, ◌∙◌, List, ◌∷◌, ◌++◌, none, some, append_assoc}
use mysql_pitr.Base.Text.{codes}
use mysql_pitr.Base.Int.{ℤ}
use mysql_pitr.Base.Result.{◌>>=◌}
use mysql_pitr.Binlog.Types.{Transaction, Filter}
use mysql_pitr.Binlog.Library.{Library}
use mysql_pitr.Binlog.Engine.{
  other_type, Event, TableMap, PendingTx, query, xid, gtid, empty_tx, sent, handle_query,
  handle_body, handle_event,
}
use mysql_pitr.Binlog.Engine.Segments.{
  event_of, changes_events, segment_events, changes_rows, Segment, handle_events, gtid_of,
  transaction_of, kept, maps_after, with_rows, scan_of,
}
use mysql_pitr.Binlog.Engine.Segments.Changes.{handle_changes}
use mysql_pitr.Binlog.Engine.Segments.Closing.{closing, with_gtid_empty, emit-closing}

module _ {G : Type 0} (lib : Library G) (max_rows : ℤ) (f : Filter G) where
  handle_opening :
      (g : Segment) (rest : List Event) (maps : List (ℕ × TableMap)) (out : List Transaction)
      → handle_events lib max_rows f
          (event_of g.timestamp other_type (gtid g.sid g.gno)
            ∷ event_of g.timestamp other_type (query g.schema (codes "BEGIN"))
            ∷ rest)
          (scan_of lib max_rows f none maps out)
        ≡ handle_events lib max_rows f rest (
            scan_of lib max_rows f
              (some
                (record empty_tx { schema = g.schema; gtid = gtid_of lib max_rows f g.sid g.gno }))
              maps
              out)
  unfolding handle_event handle_body handle_query
  handle_opening g rest maps out =
      ap
        (λ w.
          handle_events lib max_rows f rest
            (scan_of lib max_rows f (some (record w { schema = g.schema })) maps out))
        (with_gtid_empty lib max_rows f g.sid g.gno)

  handle_commit :
      (g : Segment) (rest : List Event) (maps : List (ℕ × TableMap)) (out : List Transaction)
      → handle_events lib max_rows f (event_of g.timestamp other_type (xid g.xid_number) ∷ rest) (
          scan_of lib max_rows f
            (some (record (closing lib max_rows f g) { xid = 0; commit_ts = 0 }))
            maps
            out)
        ≡ handle_events lib max_rows f rest (
            scan_of lib max_rows f none maps (
              out
              ++ kept lib max_rows f
                  (transaction_of lib max_rows f g)
                  (transaction_of lib max_rows f g).statements))
  unfolding handle_event handle_body
  handle_commit g rest maps out =
      ap (λ r. sent (scan_of lib max_rows f none maps out) r >>= handle_events lib max_rows f rest)
        (emit-closing lib max_rows f g out)

  pub handle_segment :
      (g : Segment) (rest : List Event) (maps : List (ℕ × TableMap)) (out : List Transaction)
      → handle_events lib max_rows f
          (segment_events g ++ rest)
          (scan_of lib max_rows f none maps out)
        ≡ handle_events lib max_rows f rest (
            scan_of lib max_rows f none (maps_after lib max_rows f g.changes maps) (
              out
              ++ kept lib max_rows f
                  (transaction_of lib max_rows f g)
                  (transaction_of lib max_rows f g).statements))
  handle_segment g rest maps out =
      handle_opening g _ maps out
      ∙ ap (λ evs. handle_events lib max_rows f evs (scan_of lib max_rows f (some opened) maps out))
          (append_assoc (changes_events g.timestamp g.changes) _ rest)
      ∙ handle_changes lib max_rows f g.timestamp g.changes _ opened maps out
      ∙ commit
    where
      opened : PendingTx
      opened = record empty_tx { schema = g.schema; gtid = gtid_of lib max_rows f g.sid g.gno }

      commit :
          handle_events lib max_rows f (event_of g.timestamp other_type (xid g.xid_number) ∷ rest) (
            scan_of lib max_rows f
              (some (with_rows lib max_rows f opened (changes_rows g.changes)))
              (maps_after lib max_rows f g.changes maps)
              out)
          ≡ handle_events lib max_rows f rest (
              scan_of lib max_rows f none (maps_after lib max_rows f g.changes maps) (
                out
                ++ kept lib max_rows f
                    (transaction_of lib max_rows f g)
                    (transaction_of lib max_rows f g).statements))
      commit = handle_commit g rest (maps_after lib max_rows f g.changes maps) out
