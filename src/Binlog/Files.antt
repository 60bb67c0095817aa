-- ===== src/Binlog/Files.antt =====
-- The loop over the binlog files: parseFile and runParseLoop of internal/binlog/engine.go.
pub mod Ordered
pub mod Laws
pub mod Segments
use mysql_pitr.Base.{
  ℕ, zero, suc, Bool, true, false, not, ◌&&◌, List, [], ◌∷◌, ◌++◌, Option, none, some, ltb, ◌==◌,
  if◌then◌else◌,
}
use mysql_pitr.Base.Text.{Text, codes, is_empty, text_eq}
use mysql_pitr.Base.Int.{ℤ}
use mysql_pitr.Base.Result.{Result, ok, err}
use mysql_pitr.Binlog.Types.{TimeRange, Transaction, Filter}
use mysql_pitr.Binlog.Library.{Library}
use mysql_pitr.Binlog.Engine.{Event, Scan, event_time, handle_event}

-- A file as its source delivers it from the start offset on: the events, then the end of the file
-- or an error. `ctx_errs` are the context's answers before each event; it is alive behind them.
pub record File : Type 0 where
  pub path : Text
  pub base : Text
  pub ctx_errs : List (Option Text)
  pub open_err : Option Text
  pub events : List Event
  pub end_err : Option Text

-- How a file ends: at its end or at the end position; past the end of the time range; in an error.
pub data FileEnd : Type 0 where
  finished past_time_end : FileEnd
  failed : Text → FileEnd

abbrev ctx_head : List (Option Text) → Option Text
ctx_head [] = none
ctx_head (c ∷ cs) = c

abbrev ctx_tail : List (Option Text) → List (Option Text)
ctx_tail [] = []
ctx_tail (c ∷ cs) = cs

module _ {G : Type 0} (lib : Library G) (max_rows : ℤ) (f : Filter G) where
  -- `EndPos` bounds the file of its name only.
  unfoldable pub past_end_pos : Text → Event → Bool
  past_end_pos base ev =
      not (is_empty f.end_pos.name) && (text_eq base f.end_pos.name && ltb f.end_pos.pos ev.log_pos)

  unfoldable pub past_end_time : Event → Bool
  past_end_time ev = elim f.time_range [
    | none ↦ false
    | some r ↦ ltb 0 ev.timestamp && ltb r.end (event_time ev.timestamp)
  ]

  -- The loop of `parseFile`; the scan's `out` is kept whatever the end is.
  pub parse_events :
      Text
      → Text
      → Option Text
      → List (Option Text)
      → List Event
      → Scan
      → FileEnd × List Transaction
  parse_events path base end_err ctx [] s = elim (ctx_head ctx) [
    | some e ↦ (failed e, s.out)
    | none ↦ elim end_err [
      | none ↦ (finished, s.out)
      | some e ↦ (failed (codes "binlog: parse events in " ++ (path ++ (codes ": " ++ e))), s.out)
    ]
  ]
  parse_events path base end_err ctx (ev ∷ evs) s = elim (ctx_head ctx) [
    | some e ↦ (failed e, s.out)
    | none ↦ elim (past_end_pos base ev) [
      | true ↦ (finished, s.out)
      | false ↦ elim (past_end_time ev) [
        | true ↦ (past_time_end, s.out)
        | false ↦ elim (handle_event lib max_rows f ev s) [
          | err e ↦ (failed e, s.out)
          | ok s' ↦ parse_events path base end_err (ctx_tail ctx) evs s'
        ]
      ]
    ]
  ]

  -- Each file starts with no pending transaction and no table map.
  pub parse_file : File → List Transaction → FileEnd × List Transaction
  parse_file file out = elim file.open_err [
    | some e ↦ (failed e, out)
    | none ↦
        parse_events file.path file.base file.end_err file.ctx_errs file.events
          (record { pending = none; table_maps = []; out = out })
  ]

  -- The transactions sent and the error, if the scan ends with one.
  pub run_parse_loop : List File → List Transaction → Option Text × List Transaction
  run_parse_loop [] out = (none, out)
  run_parse_loop (file ∷ files) out =
      let (how, out') = parse_file file out in
      elim how [
        | finished ↦ run_parse_loop files out'
        | past_time_end ↦ (none, out')
        | failed e ↦ (some e, out')
      ]
