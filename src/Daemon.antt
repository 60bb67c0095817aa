-- ===== src/Daemon.antt =====
-- How the agent reads the scan request that the server sends: wsFilterToBinlog and scanMode of
-- internal/daemon/scan.go, and ParseGTIDSet of internal/binlog/gtid.go.
pub mod Execute
pub mod Accepted
mod Tests
use mysql_pitr.Base.{ℕ, if◌then◌else◌, ◌&&◌, not, ◌++◌, Option, none, some}
use mysql_pitr.Base.Text.{Text, codes, is_empty, text_eq}
use mysql_pitr.Base.Result.{Result, ok, err, ◌>>=◌}
use mysql_pitr.Binlog.Types.{Time, TimeRange, Filter}
use mysql_pitr.Scan.{Mode, meta_only, with_sql, selected_sql}
use mysql_pitr.Pitr.Calls.{ScanFilter}
use mysql_pitr.Pitr.Filters.{Formats, position_or_none}

-- `time.Parse` for RFC 3339, `strings.TrimSpace`, `mysql.ParseGTIDSet` by the flavor, and the verb
-- %q.
pub record Parsers (G : Type 0) : Type 0 where
  pub parse_time : Text → Result Time
  pub trim_space : Text → Text
  pub parse_set : Text → Text → Result G
  pub go_quote : Text → Text

-- The error wrapped behind a text.
abbrev pub wrapped {ℓ} : {A : Type ℓ} → Text → Result A → Result A
wrapped text (ok a) = ok a
wrapped text (err e) = err (text ++ (codes ": " ++ e))

-- The last moment that has a bound: 9999-12-31 23:59:59.
abbrev pub time_range_far_future : Time
time_range_far_future = 315537897599000000000

module _ {G : Type 0} (lib : Parsers G) where
  unfoldable pub scan_mode : Text → Result Mode
  scan_mode m =
      if is_empty m
      then ok meta_only
      else if text_eq m (codes "meta")
      then ok meta_only
      else if text_eq m (codes "sql")
      then ok with_sql
      else if text_eq m (codes "selected")
      then ok selected_sql
      else err (codes "daemon: unknown scan mode " ++ lib.go_quote m)

  unfoldable pub parse_gtid_set : Text → Text → Result G
  parse_gtid_set flavor raw =
      let raw' = lib.trim_space raw in
      if is_empty raw'
      then err (codes "binlog: empty GTID set")
      else if not (text_eq flavor (codes "mysql")) && not (text_eq flavor (codes "mariadb"))
      then err (
          codes "binlog: unsupported flavor "
          ++ (lib.go_quote flavor ++ codes " (want mysql or mariadb)"))
      else wrapped (codes "binlog: parse GTID set " ++ lib.go_quote raw')
          (lib.parse_set flavor raw')

  -- One bound of the range, `missing` if it is not given.
  abbrev pub agent_bound : Text → Time → Text → Result Time
  agent_bound name missing t =
      if is_empty t
      then ok missing
      else wrapped (codes "daemon: parse " ++ (name ++ (codes " " ++ lib.go_quote t)))
          (lib.parse_time t)

  abbrev pub agent_range : Text → Text → Result (Option TimeRange)
  agent_range from to =
      if is_empty from && is_empty to
      then ok none
      else agent_bound (codes "timeStart") 0 from >>= (λ s.
        agent_bound (codes "timeEnd") time_range_far_future to
        >>= (λ e. ok (some (record { start = s; end = e }))))

  abbrev some_set : Result G → Result (Option G)
  some_set (ok g) = ok (some g)
  some_set (err e) = err e

  abbrev pub agent_set : Text → Result (Option G)
  agent_set t = if is_empty t then ok none else some_set (parse_gtid_set (codes "mysql") t)

  unfoldable pub ws_filter_to_binlog : ScanFilter → Result (Filter G)
  ws_filter_to_binlog f = agent_range f.time_start f.time_end >>= (λ range.
      agent_set f.gtid_set >>= (λ set. ok (record {
        binlog_dir = codes "";
        tables = f.tables;
        time_range = range;
        gtid_set = set;
        start_pos = position_or_none f.start_file f.start_pos;
        end_pos = position_or_none f.end_file f.end_pos;
        max_rows_per_tx = f.max_rows_per_tx;
        selected_tx_ids = f.selected_tx_ids;
      })))

  abbrev some_of {ℓ} : {A : Type ℓ} → Result A → Option A
  some_of (ok a) = some a
  some_of (err e) = none

  -- The server's view of the same parsers: it drops the texts of their errors, and gives a GTID set to
  -- go-mysql as it came.
  abbrev pub server_formats : Formats G → Formats G
  server_formats fm = record fm {
    parse_time = λ t. some_of (lib.parse_time t);
    parse_mysql_set = λ t. some_of (lib.parse_set (codes "mysql") t);
    parse_mariadb_set = λ t. some_of (lib.parse_set (codes "mariadb") t);
  }
