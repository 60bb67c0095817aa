-- ===== src/Pitr/Filters.antt =====
-- The filters of internal/server/pitr/handler.go: validateScanFilter, and the way between the wire's
-- filter and the stored one. Times in RFC 3339 and the GTID sets of go-mysql are read and printed
-- by their libraries.
pub mod Recorded
use mysql_pitr.Base.{
  ℕ, zero, suc, if◌then◌else◌, Bool, true, false, ◌&&◌, not, List, [], ◌∷◌, ◌++◌, Option, none,
  some, ltb,
}
use mysql_pitr.Base.Text.{Text, codes, is_empty}
use mysql_pitr.Base.Int.{ℤ, pos, is_nonpositive, pos_part, int_text, nat_text}
use mysql_pitr.Base.Result.{Result, ok, err}
use mysql_pitr.Binlog.Types.{Time, TableRef, TimeRange, Position, Filter}
use mysql_pitr.Pitr.Preview.{StatementWire}
use mysql_pitr.Pitr.Operations.{OpStatement}
use mysql_pitr.Pitr.Calls.{ScanFilter}

-- `none` is a parse error. A zero time is 0.
pub record Formats (G : Type 0) : Type 0 where
  pub parse_time : Text → Option Time
  pub time_text : Time → Text
  pub parse_mysql_set : Text → Option G
  pub parse_mariadb_set : Text → Option G
  pub set_text : G → Text
  -- The verb %q.
  pub go_quote : Text → Text

abbrev pub max_rows_per_tx_cap : ℕ
max_rows_per_tx_cap = 1000000

abbrev zero_or : Option Time → Time
zero_or none = 0
zero_or (some t) = t

abbrev pub position_or_none : Text → ℕ → Position
position_or_none file n =
    if is_empty file then record { name = []; pos = 0 } else record { name = file; pos = n }

module _ {G : Type 0} (fm : Formats G) where
  -- One bound of the range; the parse error is dropped.
  abbrev bound_time : Text → Time
  bound_time t = if is_empty t then 0 else zero_or (fm.parse_time t)

  abbrev bound_text : Time → Text
  bound_text zero = []
  bound_text (suc t) = fm.time_text (suc t)

  abbrev pub range_of : Text → Text → Option TimeRange
  range_of from to =
      if is_empty from && is_empty to
      then none
      else some (record { start = bound_time from; end = bound_time to })

  unfoldable pub scan_filter_to_binlog : ScanFilter → Filter G
  scan_filter_to_binlog f = record {
    binlog_dir = [];
    tables = f.tables;
    time_range = range_of f.time_start f.time_end;
    gtid_set = if is_empty f.gtid_set then none else fm.parse_mysql_set f.gtid_set;
    start_pos = position_or_none f.start_file f.start_pos;
    end_pos = position_or_none f.end_file f.end_pos;
    max_rows_per_tx = if is_nonpositive f.max_rows_per_tx then pos 0 else f.max_rows_per_tx;
    selected_tx_ids = f.selected_tx_ids;
  }

  abbrev start_text : Option TimeRange → Text
  start_text none = []
  start_text (some r) = bound_text r.start

  abbrev end_text : Option TimeRange → Text
  end_text none = []
  end_text (some r) = bound_text r.end

  abbrev gtid_text : Option G → Text
  gtid_text none = []
  gtid_text (some g) = fm.set_text g

  abbrev wire_pos : Position → ℕ
  wire_pos p = if is_empty p.name then 0 else p.pos

  unfoldable pub binlog_filter_to_wire : Filter G → ScanFilter
  binlog_filter_to_wire f = record {
    tables = f.tables;
    time_start = start_text f.time_range;
    time_end = end_text f.time_range;
    gtid_set = gtid_text f.gtid_set;
    start_file = f.start_pos.name;
    start_pos = wire_pos f.start_pos;
    end_file = f.end_pos.name;
    end_pos = wire_pos f.end_pos;
    max_rows_per_tx = f.max_rows_per_tx;
    selected_tx_ids = f.selected_tx_ids;
  }

  abbrev unreadable : Option Time → Bool
  unreadable none = true
  unreadable (some t) = false

  abbrev no_set : Option G → Option G → Bool
  no_set none none = true
  no_set _ _ = false

  abbrev pub bad_time : Text → Bool
  bad_time t = not (is_empty t) && unreadable (fm.parse_time t)

  unfoldable pub validate_scan_filter : ScanFilter → Option Text
  validate_scan_filter f =
      if bad_time f.time_start
      then some (
          codes "invalid filter.timeStart "
          ++ (fm.go_quote f.time_start ++ codes ": expected RFC3339"))
      else if bad_time f.time_end
      then some (
          codes "invalid filter.timeEnd " ++ (fm.go_quote f.time_end ++ codes ": expected RFC3339"))
      else if not (is_empty f.gtid_set)
          && no_set (fm.parse_mysql_set f.gtid_set) (fm.parse_mariadb_set f.gtid_set)
      then some (codes "invalid filter.gtidSet " ++ fm.go_quote f.gtid_set)
      else if ltb max_rows_per_tx_cap (pos_part f.max_rows_per_tx)
      then some (
          codes "filter.maxRowsPerTx "
          ++ (int_text f.max_rows_per_tx
              ++ (codes " exceeds the maximum " ++ nat_text max_rows_per_tx_cap)))
      else none

unfoldable pub statements_to_wire : List OpStatement → List StatementWire
statements_to_wire [] = []
statements_to_wire (st ∷ sts) =
    record { sql = st.sql; tx_id = st.tx_id; tx_order = st.tx_order; warnings = st.warnings }
    ∷ statements_to_wire sts
