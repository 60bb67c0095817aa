-- ===== src/Binlog/Tests.antt =====
-- The scanner of internal/binlog on a file of two transactions.
use mysql_pitr.Base.{refl, ℕ, ◌≡◌, ◌≤◌, true, false, List, [], ◌∷◌, none, some, length, All, arith}
use mysql_pitr.Base.Text.{Text, codes, text_eq}
use mysql_pitr.Base.Int.{pos}
use mysql_pitr.Binlog.Types.{Filter, Transaction, RowChange, action_insert, int}
use mysql_pitr.Binlog.Library.{Library}
use mysql_pitr.Binlog.Engine.{TableMap, truncate}
use mysql_pitr.Binlog.Files.Ordered.{Log, all_segments}
use mysql_pitr.Binlog.Filter.{matches_filter}
use mysql_pitr.Binlog.Engine.Segments.{Segment, inserts, segments_events, transaction_of, kept_all}
use mysql_pitr.Binlog.Engine.Emitted.{IsEmitted, truncate_lem}
use mysql_pitr.Binlog.Files.{File, run_parse_loop}
use mysql_pitr.Binlog.Files.Laws.{run_parse_loop-IsEmitted}

-- GTID sets as single texts.
abbrev library : Library Text
library = record {
  parse_mysql = λ s. some s;
  parse_mariadb = λ s. none;
  is_mariadb = λ g. false;
  contain = λ g h. text_eq g h;
  sha256_hex = λ s. codes "00";
  random_hex = codes "11";
  now = 1;
  render = λ v. [];
}

abbrev no_filter : Filter Text
no_filter = record {
  binlog_dir = [];
  tables = [];
  time_range = none;
  gtid_set = none;
  start_pos = record { name = []; pos = 0 };
  end_pos = record { name = []; pos = 0 };
  max_rows_per_tx = pos 0;
  selected_tx_ids = [];
}

abbrev orders : TableMap
orders = record { schema = codes "shop"; table = codes "orders" }

abbrev segment : ℕ → Segment
segment x = record {
  sid = [];
  gno = pos 1;
  schema = codes "shop";
  changes = inserts 5 orders ((int (pos x) ∷ []) ∷ []) ∷ [];
  xid_number = x;
  timestamp = 100;
}

abbrev segments : List Segment
segments = segment 7 ∷ segment 8 ∷ []

-- Two files; the second one is past the range, from its first event on.
abbrev logs : List Log
logs =
    record { path = codes "/b.1"; base = codes "b.1"; segments = segments }
    ∷ record {
      path = codes "/b.2";
      base = codes "b.2";
      segments = record (segment 9) { timestamp = 200 } ∷ [];
    }
    ∷ []

abbrev up_to : Filter Text
up_to = record no_filter { time_range = some (record { start = 0; end = 62135596950000000000 }) }

two_kept : length (kept_all library (pos 10) up_to (all_segments logs)) ≡ 2
unfolding transaction_of matches_filter
two_kept = refl

abbrev file : File
file = record {
  path = codes "/binlog.000001";
  base = codes "binlog.000001";
  ctx_errs = [];
  open_err = none;
  events = segments_events segments;
  end_err = none;
}

run_parse_loop-IsEmitted_example :
    All
      (IsEmitted library (pos 10) no_filter)
      (run_parse_loop library (pos 10) no_filter (file ∷ []) []).1
run_parse_loop-IsEmitted_example =
    run_parse_loop-IsEmitted library (pos 10) no_filter (file ∷ []) [] tt

abbrev row : RowChange
row = record {
  schema = codes "shop";
  table = codes "orders";
  action = action_insert;
  before = [];
  after = [];
  column_names = [];
}

abbrev two_rows : Transaction
two_rows = record {
  tx_id = codes "a";
  gtid = [];
  xid = 7;
  commit_time = 1;
  schema = codes "shop";
  statements = row ∷ row ∷ [];
  truncated = false;
}

truncate_lem_example :
    ((truncate (pos 1) two_rows).statements ≡ row ∷ [])
    × (length (truncate (pos 1) two_rows).statements ≤ 1)
    × ((truncate (pos 1) two_rows).truncated ≡ true)
truncate_lem_example = truncate_lem 1 two_rows (omega arith)
