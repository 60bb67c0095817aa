-- ===== src/Binlog/Engine/Segments.antt =====
-- Well-formed binlog transactions: what internal/binlog/engine.go makes of the events that MySQL
-- writes for a transaction with row changes.
mod Changes
mod Closing
pub mod Sent
use mysql_pitr.Base.{ℕ, false, ◌&&◌, List, [], ◌∷◌, ◌++◌, Option, none, some, ◌==◌, if◌then◌else◌}
use mysql_pitr.Base.Text.{Text, codes, is_empty}
use mysql_pitr.Base.Int.{ℤ}
use mysql_pitr.Base.Result.{Result, ok, ◌>>=◌}
use mysql_pitr.Binlog.Types.{Value, Transaction, Filter, RowChange}
use mysql_pitr.Binlog.Library.{Library}
use mysql_pitr.Binlog.Transaction.{anonymous_tx_id, first_tx_id}
use mysql_pitr.Binlog.Filter.{matches_filter}
use mysql_pitr.Binlog.Engine.{
  EventType, write_rows_v2, update_rows_v2, delete_rows_v2, other_type, EventBody, Event, TableMap,
  PendingTx, Scan, table_map, rows, query, xid, gtid, row_limit, truncate, insert_rows, update_rows,
  delete_rows, format_gtid, is_zero_sid, event_time, handle_event, send,
}

-- The statements of a transaction: the row images of one table.
pub data Change : Type 0 where
  inserts updates deletes : ℕ → TableMap → List (List Value) → Change

pub record Segment : Type 0 where
  pub sid : Text
  pub gno : ℤ
  pub schema : Text
  pub changes : List Change
  pub xid_number : ℕ
  pub timestamp : ℕ

abbrev pub event_of : ℕ → EventType → EventBody → Event
event_of ts ty body = record { event_type = ty; timestamp = ts; log_pos = 0; body = body }

-- A table map, then the rows.
abbrev pub change_events : ℕ → Change → List Event
change_events ts (inserts id tm images) =
    event_of ts other_type (table_map id tm) ∷ event_of ts write_rows_v2 (rows id images) ∷ []
change_events ts (updates id tm images) =
    event_of ts other_type (table_map id tm) ∷ event_of ts update_rows_v2 (rows id images) ∷ []
change_events ts (deletes id tm images) =
    event_of ts other_type (table_map id tm) ∷ event_of ts delete_rows_v2 (rows id images) ∷ []

abbrev pub changes_events : ℕ → List Change → List Event
changes_events ts [] = []
changes_events ts (c ∷ cs) = change_events ts c ++ changes_events ts cs

-- GTID, BEGIN, the row changes, and the commit.
abbrev pub segment_events : Segment → List Event
segment_events g =
    event_of g.timestamp other_type (gtid g.sid g.gno)
    ∷ event_of g.timestamp other_type (query g.schema (codes "BEGIN"))
    ∷ (changes_events g.timestamp g.changes
        ++ event_of g.timestamp other_type (xid g.xid_number) ∷ [])

abbrev pub segments_events : List Segment → List Event
segments_events [] = []
segments_events (g ∷ gs) = segment_events g ++ segments_events gs

abbrev change_rows : Change → List RowChange
change_rows (inserts id tm images) = insert_rows tm images
change_rows (updates id tm images) = update_rows tm images
change_rows (deletes id tm images) = delete_rows tm images

abbrev changes_rows : List Change → List RowChange
changes_rows [] = []
changes_rows (c ∷ cs) = change_rows c ++ changes_rows cs

module _ {G : Type 0} (lib : Library G) (max_rows : ℤ) (f : Filter G) where
  -- The events in turn, up to an error.
  abbrev pub handle_events : List Event → Scan → Result Scan
  handle_events [] s = ok s
  handle_events (ev ∷ evs) s = handle_event lib max_rows f ev s >>= handle_events evs

  -- The GTID of a segment, if it has one that go-mysql accepts.
  abbrev gtid_of : Text → ℤ → Text
  gtid_of sid gno =
      if is_zero_sid sid
      then []
      else elim (lib.parse_mysql (format_gtid sid gno)) [ none ↦ [] | some g ↦ format_gtid sid gno ]

  -- The transaction that a segment stands for.
  unfoldable pub transaction_of : Segment → Transaction
  transaction_of g =
      let id = gtid_of g.sid g.gno in
      let ts = event_time g.timestamp in
      let row_changes = changes_rows g.changes in
      record {
        tx_id =
            if is_empty id && g.xid_number == 0
            then anonymous_tx_id lib ts row_changes
            else first_tx_id lib id g.xid_number;
        gtid = id;
        xid = g.xid_number;
        commit_time = ts;
        schema = g.schema;
        statements = row_changes;
        truncated = false;
      }

  -- What a scan is to send for it.
  abbrev pub kept : Transaction → List RowChange → List Transaction
  kept tx [] = []
  kept tx (r ∷ rs) =
      if matches_filter lib tx f then truncate (row_limit lib max_rows f) tx ∷ [] else []

  abbrev pub kept_all : List Segment → List Transaction
  kept_all [] = []
  kept_all (g ∷ gs) = kept (transaction_of g) (transaction_of g).statements ++ kept_all gs

  abbrev change_map : Change → ℕ × TableMap
  change_map (inserts id tm images) = (id, tm)
  change_map (updates id tm images) = (id, tm)
  change_map (deletes id tm images) = (id, tm)

  abbrev pub maps_after : List Change → List (ℕ × TableMap) → List (ℕ × TableMap)
  maps_after [] maps = maps
  maps_after (c ∷ cs) maps = maps_after cs (change_map c ∷ maps)

  -- A pending transaction with more row changes.
  abbrev with_rows : PendingTx → List RowChange → PendingTx
  with_rows p rcs = record p { rows = p.rows ++ rcs }

  abbrev pub scan_of : Option PendingTx → List (ℕ × TableMap) → List Transaction → Scan
  scan_of p maps out = record { pending = p; table_maps = maps; out = out }
