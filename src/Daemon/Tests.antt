-- ===== src/Daemon/Tests.antt =====
-- A request for one table from a time on, between the server and the agent, and an execute command
-- of two statements.
use mysql_pitr.Base.{
  ℕ, ◌==◌, if◌then◌else◌, ◌≡◌, refl, ◌&&◌, true, false, inr, [], ◌∷◌, none, some, length, arith,
}
use mysql_pitr.Base.Text.{Text, codes, text_eq}
use mysql_pitr.Base.Int.{pos}
use mysql_pitr.Base.Result.{ok}
use mysql_pitr.Binlog.Types.{Transaction, Filter, action_delete, int}
use mysql_pitr.Binlog.Library.{Library}
use mysql_pitr.Binlog.Filter.{matches_filter, match_gtid}
use mysql_pitr.Pitr.Calls.{ScanFilter}
use mysql_pitr.Pitr.Filters.{Formats, scan_filter_to_binlog, validate_scan_filter}
use mysql_pitr.Executor.Types.{Env, executed, not_found}
use mysql_pitr.Pitr.Preview.{StatementWire}
use mysql_pitr.Daemon.Execute.{Encoders, ExecuteRequest}
use mysql_pitr.Daemon.{Parsers, parse_gtid_set, ws_filter_to_binlog, server_formats}
use mysql_pitr.Daemon.Accepted.{within, closed, ws_filter_to_binlog-matches}

-- A time is written with as many characters, and a GTID set is its text.
abbrev parsers : Parsers Text
parsers = record {
  parse_time = λ t. ok (length t);
  trim_space = λ t. t;
  parse_set = λ flavor t. ok t;
  go_quote = λ t. t;
}

abbrev formats : Formats Text
formats = record {
  parse_time = λ t. none;
  time_text = λ t. [];
  parse_mysql_set = λ t. none;
  parse_mariadb_set = λ t. none;
  set_text = λ t. t;
  go_quote = λ t. t;
}

abbrev library : Library Text
library = record {
  parse_mysql = λ s. some s;
  parse_mariadb = λ s. none;
  is_mariadb = λ g. false;
  contain = λ g h. text_eq g h;
  sha256_hex = λ s. codes "00";
  random_hex = codes "11";
  now = 1;
  render = λ v. [];
}

abbrev wire_filter : ScanFilter
wire_filter = record {
  tables = record { schema = codes "shop"; table = codes "orders" } ∷ [];
  time_start = codes "five.";
  time_end = [];
  gtid_set = codes "a:1-1";
  start_file = codes "binlog.000001";
  start_pos = 4;
  end_file = [];
  end_pos = 0;
  max_rows_per_tx = pos 10;
  selected_tx_ids = [];
}

abbrev deletion : Transaction
deletion = record {
  tx_id = codes "a:1";
  gtid = codes "a:1";
  xid = 3;
  commit_time = 7;
  schema = codes "shop";
  statements =
      record {
        schema = codes "shop";
        table = codes "orders";
        action = action_delete;
        before = int (pos 1) ∷ [];
        after = [];
        column_names = codes "id" ∷ [];
      }
      ∷ [];
  truncated = false;
}

ws_filter_to_binlog-matches_example :
    let stored = scan_filter_to_binlog (server_formats parsers formats) wire_filter in
    (f : Filter Text) × (ws_filter_to_binlog parsers wire_filter ≡ ok f)
    × (f ≡ record stored {
      time_range = closed wire_filter.time_end stored.time_range;
      max_rows_per_tx = wire_filter.max_rows_per_tx;
    })
    × (matches_filter library deletion f
        ≡ within parsers wire_filter deletion.commit_time
          && matches_filter library deletion (record stored { time_range = none }))
unfolding validate_scan_filter
ws_filter_to_binlog-matches_example =
    ws_filter_to_binlog-matches parsers formats library wire_filter deletion refl
      (inr (codes "a:1-1", refl, refl)) (omega arith)

-- The agent keeps the deletion.
kept :
    (f : Filter Text) × (ws_filter_to_binlog parsers wire_filter ≡ ok f)
    × (matches_filter library deletion f ≡ true)
unfolding ws_filter_to_binlog matches_filter parse_gtid_set match_gtid
kept = (_, refl, refl)

-- A database where every statement affects one row, and a store that keeps nothing.
abbrev env : Env Unit
env = record {
  open_err = λ h. none;
  begin_err = λ h. none;
  exec = λ h sql. executed (some 1);
  commit_err = λ h. none;
  is_cancelled = λ h. false;
  load = λ id s. not_found;
  save = λ c s. (s, none);
  clear = λ id s. (s, none);
}

abbrev encoders : Encoders
encoders = record {
  path_base = λ t. t;
  go_quote = λ t. t;
  marshal_progress = λ p. some p.last_sql;
  marshal_report = λ r. some (codes (if r.done == 2 then "two" else "other"));
  marshal_error = λ e. some e;
}

abbrev wire_statement : Text → ℕ → StatementWire
wire_statement sql i = record { sql = sql; tx_id = codes "a:1"; tx_order = pos i; warnings = [] }

abbrev command : ExecuteRequest
command = record {
  operation_id = codes "op-1";
  statements = wire_statement (codes "INSERT 1") 0 ∷ wire_statement (codes "INSERT 2") 1 ∷ [];
  batch_size = pos 1;
}
