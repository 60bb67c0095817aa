-- ===== src/Binlog/Files/Segments.antt =====
-- A scan over files of whole transactions: runParseLoop and parseFile of internal/binlog/engine.go.
use mysql_pitr.Base.{List, [], none}
use mysql_pitr.Base.Text.{Text}
use mysql_pitr.Base.Int.{ℤ}
use mysql_pitr.Binlog.Types.{Transaction, Filter}
use mysql_pitr.Binlog.Library.{Library}
use mysql_pitr.Binlog.Engine.Segments.{scan_of}
use mysql_pitr.Binlog.Files.{File, FileEnd, parse_events}

module _ {G : Type 0} (lib : Library G) (max_rows : ℤ) (f : Filter G) where
  abbrev parsed : File → List Transaction → FileEnd × List Transaction
  parsed file out =
      parse_events lib max_rows f file.path file.base file.end_err file.ctx_errs file.events
        (scan_of lib max_rows f none [] out)
