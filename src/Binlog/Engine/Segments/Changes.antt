-- ===== src/Binlog/Engine/Segments/Changes.antt =====
-- The events of row changes, as internal/binlog/engine.go takes them.
use mysql_pitr.Base.{
  ℕ, ◌≡◌, refl, ap, ◌∙◌, List, [], ◌∷◌, ◌++◌, some, ==_iff, append_assoc, append-nil,
}
use mysql_pitr.Base.Int.{ℤ}
use mysql_pitr.Binlog.Types.{Value, Transaction, Filter}
use mysql_pitr.Binlog.Library.{Library}
use mysql_pitr.Binlog.Engine.{
  EventType, write_rows_v2, update_rows_v2, delete_rows_v2, Event, TableMap, PendingTx,
  row_change_from_event, handle_body, handle_event, row_images,
}
use mysql_pitr.Binlog.Engine.Segments.{
  change_events, changes_events, change_rows, changes_rows, Change, inserts, updates, deletes,
  handle_events, change_map, maps_after, with_rows, scan_of,
}

module _ {G : Type 0} (lib : Library G) (max_rows : ℤ) (f : Filter G) where
  row_change_mapped :
      (id : ℕ) (tm : TableMap) (images : List (List Value)) (ty : EventType)
      (maps : List (ℕ × TableMap))
      → row_change_from_event id images ty ((id, tm) ∷ maps) ≡ row_images tm ty images
  unfolding row_change_from_event
  row_change_mapped id tm images ty maps = rw ((==_iff id id).1 refl, row_change_from_event) refl

  handle_change :
      (ts : ℕ) (c : Change) (rest : List Event) (p : PendingTx) (maps : List (ℕ × TableMap))
      (out : List Transaction)
      → handle_events lib max_rows f
          (change_events ts c ++ rest)
          (scan_of lib max_rows f (some p) maps out)
        ≡ handle_events lib max_rows f rest (
            scan_of lib max_rows f
              (some (with_rows lib max_rows f p (change_rows c)))
              (change_map lib max_rows f c ∷ maps)
              out)
  unfolding handle_event handle_body
  handle_change ts (inserts id tm images) rest p maps out =
      rw (row_change_mapped id tm images write_rows_v2 maps)
  handle_change ts (updates id tm images) rest p maps out =
      rw (row_change_mapped id tm images update_rows_v2 maps)
  handle_change ts (deletes id tm images) rest p maps out =
      rw (row_change_mapped id tm images delete_rows_v2 maps)

  pub handle_changes :
      (ts : ℕ) (cs : List Change) (rest : List Event) (p : PendingTx) (maps : List (ℕ × TableMap))
      (out : List Transaction)
      → handle_events lib max_rows f
          (changes_events ts cs ++ rest)
          (scan_of lib max_rows f (some p) maps out)
        ≡ handle_events lib max_rows f rest (
            scan_of lib max_rows f
              (some (with_rows lib max_rows f p (changes_rows cs)))
              (maps_after lib max_rows f cs maps)
              out)
  handle_changes ts [] rest p maps out = rw append-nil
  handle_changes ts (c ∷ cs) rest p maps out =
      ap (λ evs. handle_events lib max_rows f evs (scan_of lib max_rows f (some p) maps out))
        (append_assoc (change_events ts c) (changes_events ts cs) rest)
      ∙ handle_change ts c (changes_events ts cs ++ rest) p maps out
      ∙ handle_changes ts cs rest (with_rows lib max_rows f p (change_rows c))
          (change_map lib max_rows f c ∷ maps) out
      ∙ ap
          (λ rcs. handle_events lib max_rows f rest (
            scan_of lib max_rows f (some (record p { rows = rcs }))
              (maps_after lib max_rows f (c ∷ cs) maps) out))
          (append_assoc p.rows (change_rows c) (changes_rows cs))
