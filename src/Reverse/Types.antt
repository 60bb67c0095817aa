-- ===== src/Reverse/Types.antt =====
-- The data of internal/reverse/types.go.
use mysql_pitr.Base.{ℕ, List, Bool, ◌*◌}
use mysql_pitr.Base.Int.{ℤ}
use mysql_pitr.Base.Text.{Text}
use mysql_pitr.Binlog.Types.{RowChange}

pub record Statement : Type 0 where
  pub sql : Text
  pub tx_id : Text
  pub tx_order : ℕ
  pub source_row : RowChange
  pub warnings : List Text

pub record Options : Type 0 where
  pub ignore_auto_increment : Bool
  pub max_statement_size : ℤ

abbrev pub default_max_statement_size : ℕ
default_max_statement_size = 16 * 1024

-- Renderings of other packages: strconv.FormatFloat, decimal.String and the verb %q.
pub record Formats : Type 0 where
  pub float32_text : ℕ → Text
  pub float64_text : ℕ → Text
  pub decimal_text : ℤ → ℤ → Text
  pub go_quote : Text → Text
