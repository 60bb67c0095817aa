-- ===== src/Daemon/Accepted.antt =====
-- A scan filter between the two programs: validateScanFilter and scanFilterToBinlog of
-- internal/server/pitr/handler.go against wsFilterToBinlog of internal/daemon/scan.go.
use mysql_pitr.Base.{
  ◌≤◌, ◌≡◌, refl, ◌⊎◌, inl, inr, if◌then◌else◌, Bool, true, false, ◌&&◌, leb, none, some,
  Bool-cases, arith, Option,
}
use mysql_pitr.Base.Text.{Text, is_empty, codes}
use mysql_pitr.Base.Result.{ok, err, Result-cases}
use mysql_pitr.Binlog.Types.{Time, Filter, Transaction, TimeRange}
use mysql_pitr.Binlog.Library.{Library}
use mysql_pitr.Binlog.Filter.{matches_filter, in_time_range}
use mysql_pitr.Pitr.Calls.{ScanFilter}
use mysql_pitr.Pitr.Filters.{
  Formats, validate_scan_filter, scan_filter_to_binlog, bad_time, range_of,
}
use mysql_pitr.Daemon.{
  Parsers, time_range_far_future, ws_filter_to_binlog, agent_range, agent_set, parse_gtid_set,
  server_formats,
}

module _ {G : Type 0} (lib : Parsers G) where
  -- Not before the bound, if there is one.
  abbrev since : Text → Time → Bool
  since from t =
      if is_empty from then true else elim (lib.parse_time from) [ ok s ↦ leb s t | err e ↦ false ]

  -- Not after the bound, if there is one.
  abbrev until : Text → Time → Bool
  until to t =
      if is_empty to then true else elim (lib.parse_time to) [ ok s ↦ leb t s | err e ↦ false ]

  abbrev pub within : ScanFilter → Time → Bool
  within w t = since w.time_start t && until w.time_end t

  -- No set, or one that go-mysql reads as a set of MySQL and that has no space around it.
  abbrev pub IsMysqlSet : Text → Type 0
  IsMysqlSet t =
      (is_empty t ≡ true)
      ⊎ ((g : G) × (lib.trim_space t ≡ t) × (lib.parse_set (codes "mysql") t ≡ ok g))

  abbrev IsReadable : Text → Type 0
  IsReadable t =
      (is_empty t ≡ true) ⊎ ((s : Time) × (is_empty t ≡ false) × (lib.parse_time t ≡ ok s))

module _ {G : Type 0} (lib : Parsers G) (fm : Formats G) where
  bad_time-IsReadable : (t : Text) → bad_time (server_formats lib fm) t ≡ false → IsReadable lib t
  bad_time-IsReadable t h = elim (Bool-cases (is_empty t)) [
    | inl e ↦ inl e
    | inr e ↦ elim (Result-cases (lib.parse_time t)) [
      | inl (s, q) ↦ inr (s, e, q)
      | inr (m, q) ↦ ground arith
    ]
  ]

  good_times :
      (w : ScanFilter)
      → validate_scan_filter (server_formats lib fm) w ≡ none
      → (bad_time (server_formats lib fm) w.time_start ≡ false)
        × (bad_time (server_formats lib fm) w.time_end ≡ false)
  unfolding validate_scan_filter
  good_times w h = ground arith

-- The stored range, whose end is the last moment that has a bound where the request has no end.
abbrev pub closed : Text → Option TimeRange → Option TimeRange
closed to none = none
closed to (some r) =
    some (record { start = r.start; end = if is_empty to then time_range_far_future else r.end })

module _ {G : Type 0} (lib : Parsers G) (fm : Formats G) (bl : Library G) where
  abbrev agents : Text → Text → Option TimeRange
  agents from to = closed to (range_of (server_formats lib fm) from to)

  agent_range-agents :
      (from to : Text) (t : Time)
      → t ≤ time_range_far_future
      → IsReadable lib from
      → IsReadable lib to
      → (agent_range lib from to ≡ ok (agents from to))
        × (in_time_range bl (agents from to) t ≡ since lib from t && until lib to t)
  agent_range-agents from to t h (inl a) (inl b) = (rw (a, b) refl, rw (a, b) refl)
  agent_range-agents from to t h (inl a) (inr (e, b, q)) =
      (rw (a, b, q) (rw b refl), rw (a, b, q) (rw b (ground arith)))
  agent_range-agents from to t h (inr (s, a, p)) (inl b) =
      (rw (a, b, p) refl, rw (a, b, p) (ground arith))
  agent_range-agents from to t h (inr (s, a, p)) (inr (e, b, q)) =
      (rw (a, b, p, q) refl, rw (a, b, p, q) (ground arith))

module _ {G : Type 0} (lib : Parsers G) (fm : Formats G) (bl : Library G) where
  abbrev stored_set : Text → Option G
  stored_set t = if is_empty t then none else (server_formats lib fm).parse_mysql_set t

  parse_gtid_set-trimmed :
      (t : Text) (g : G)
      → is_empty t ≡ false
      → lib.trim_space t ≡ t
      → lib.parse_set (codes "mysql") t ≡ ok g
      → parse_gtid_set lib (codes "mysql") t ≡ ok g
  unfolding parse_gtid_set
  parse_gtid_set-trimmed t g q e p = rw (e, parse_gtid_set) (rw q (rw p refl))

  agent_set-stored : (t : Text) → IsMysqlSet lib t → agent_set lib t ≡ ok (stored_set t)
  agent_set-stored t (inl e) = rw e refl
  agent_set-stored t (inr (g, e, p)) = elim (Bool-cases (is_empty t)) [
    | inl q ↦ rw q refl
    | inr q ↦ rw (q, parse_gtid_set-trimmed t g q e p, p) refl
  ]

  -- The agent takes every filter that the server takes whose GTID set, if there is one, is one of
  -- MySQL without space around it. What it scans with is the filter that the server stores, except
  -- that a time range without an end, which the server stores with the zero time as its end, has no
  -- bound there, and that the row limit is the one of the request. Of the transactions committed
  -- before the year 10000 it keeps those that are within the bounds of the request and that the
  -- stored filter keeps apart from its time range.
  pub ws_filter_to_binlog-matches :
      (w : ScanFilter) (tx : Transaction)
      → validate_scan_filter (server_formats lib fm) w ≡ none
      → IsMysqlSet lib w.gtid_set
      → tx.commit_time ≤ time_range_far_future
      → let stored = scan_filter_to_binlog (server_formats lib fm) w in
        (f : Filter G) × (ws_filter_to_binlog lib w ≡ ok f)
        × (f ≡ record stored {
          time_range = closed w.time_end stored.time_range;
          max_rows_per_tx = w.max_rows_per_tx;
        })
        × (matches_filter bl tx f
            ≡ within lib w tx.commit_time
              && matches_filter bl tx (record stored { time_range = none }))
  unfolding ws_filter_to_binlog matches_filter scan_filter_to_binlog
  ws_filter_to_binlog-matches w tx v m h =
      let (bs, be) = good_times lib fm w v in
      let (e, q) =
        agent_range-agents lib fm bl w.time_start w.time_end tx.commit_time h
          (bad_time-IsReadable lib fm w.time_start bs) (bad_time-IsReadable lib fm w.time_end be) in
      (
        record (scan_filter_to_binlog (server_formats lib fm) w) {
          time_range = agents lib fm bl w.time_start w.time_end;
          max_rows_per_tx = w.max_rows_per_tx;
        },
        rw (e, agent_set-stored w.gtid_set m) refl,
        refl,
        rw q refl,
      )
