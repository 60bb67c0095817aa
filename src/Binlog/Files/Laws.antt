-- ===== src/Binlog/Files/Laws.antt =====
-- A whole scan of internal/binlog/engine.go.
use mysql_pitr.Base.{inl, inr, List, [], ◌∷◌, Option, none, some, Bool-cases, Option-cases, All}
use mathlib.Core.Path.{subst}
use mysql_pitr.Base.Text.{Text}
use mysql_pitr.Base.Int.{ℤ}
use mysql_pitr.Base.Result.{Result-cases}
use mysql_pitr.Binlog.Types.{Transaction, Filter}
use mysql_pitr.Binlog.Library.{Library}
use mysql_pitr.Binlog.Engine.{Event, Scan, handle_event}
use mysql_pitr.Binlog.Engine.Emitted.{IsEmitted, SoundScan, handle_event-Sound}
use mysql_pitr.Binlog.Files.{
  File, FileEnd, finished, past_time_end, failed, ctx_head, ctx_tail, past_end_pos, past_end_time,
  parse_events, parse_file, run_parse_loop,
}

module _ {G : Type 0} (lib : Library G) (max_rows : ℤ) (f : Filter G) where
  parse_events-IsEmitted :
      (path base : Text) (end_err : Option Text) (ctx : List (Option Text)) (evs : List Event)
      (s : Scan)
      → All (IsEmitted lib max_rows f) s.out
      → All (IsEmitted lib max_rows f) (parse_events lib max_rows f path base end_err ctx evs s).1
  unfolding parse_events
  parse_events-IsEmitted path base end_err ctx [] s a = elim (Option-cases (ctx_head ctx)) [
    | inr (x, c) ↦ rw (c, parse_events) a
    | inl c ↦ elim (Option-cases end_err) [
      | inl e ↦ rw (c, parse_events) (rw e a)
      | inr (x, e) ↦ rw (c, parse_events) (rw e a)
    ]
  ]
  parse_events-IsEmitted path base end_err ctx (ev ∷ evs) s a = elim (Option-cases (ctx_head ctx)) [
    | inr (x, c) ↦ rw (c, parse_events) a
    | inl c ↦ elim (Bool-cases (past_end_pos lib max_rows f base ev)) [
      | inl p ↦ rw (c, parse_events) (rw p a)
      | inr p ↦ elim (Bool-cases (past_end_time lib max_rows f ev)) [
        | inl t ↦ rw (c, parse_events) (rw p (rw t a))
        | inr t ↦ elim (Result-cases (handle_event lib max_rows f ev s)) [
          | inr (x, h) ↦ rw (c, parse_events) (rw p (rw t (rw h a)))
          | inl (s', h) ↦
              let kept =
                subst (SoundScan lib max_rows f) h (handle_event-Sound lib max_rows f ev s a) in
              rw (c, parse_events)
                (rw p (
                  rw t
                    (rw h (parse_events-IsEmitted path base end_err (ctx_tail ctx) evs s' kept))))
        ]
      ]
    ]
  ]

  parse_file-IsEmitted :
      (file : File) (out : List Transaction)
      → All (IsEmitted lib max_rows f) out
      → All (IsEmitted lib max_rows f) (parse_file lib max_rows f file out).1
  unfolding parse_file
  parse_file-IsEmitted file out a = elim (Option-cases file.open_err) [
    | inl e ↦
        rw (e, parse_file)
          (parse_events-IsEmitted file.path file.base file.end_err file.ctx_errs file.events _ a)
    | inr (x, e) ↦ rw (e, parse_file) a
  ]

  -- Whatever the files hold and however the scan ends, each transaction that it sends passed the
  -- filter, has row changes, and is cut to the row limit.
  pub run_parse_loop-IsEmitted :
      (files : List File) (out : List Transaction)
      → All (IsEmitted lib max_rows f) out
      → All (IsEmitted lib max_rows f) (run_parse_loop lib max_rows f files out).1
  unfolding run_parse_loop
  run_parse_loop-IsEmitted [] out a = a
  run_parse_loop-IsEmitted (file ∷ files) out a =
      after (parse_file lib max_rows f file out).0 (run_parse_loop-IsEmitted files)
        (parse_file lib max_rows f file out).1 (parse_file-IsEmitted file out a)
    where
      after :
          (how : FileEnd)
          → ((o : List Transaction)
              → All (IsEmitted lib max_rows f) o
              → All (IsEmitted lib max_rows f) (run_parse_loop lib max_rows f files o).1)
          → (o : List Transaction) → All (IsEmitted lib max_rows f) o
          → All
              (IsEmitted lib max_rows f)
              (elim how as (λ x. Option Text × List Transaction) [
                | finished ↦ run_parse_loop lib max_rows f files o
                | past_time_end ↦ (none, o)
                | failed e ↦ (some e, o)
              ]).1
      after finished ih o a = ih o a
      after past_time_end ih o a = a
      after (failed e) ih o a = a
