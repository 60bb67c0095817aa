-- ===== src/Binlog/Library.antt =====
-- What internal/binlog takes from other packages: GTID sets of go-mysql, SHA-256, the random
-- source, the clock, and the verb %v.
use mysql_pitr.Base.{Bool, Option}
use mysql_pitr.Base.Text.{Text}
use mysql_pitr.Binlog.Types.{Value, Time}

pub record Library (G : Type 0) : Type 0 where
  pub parse_mysql : Text → Option G
  pub parse_mariadb : Text → Option G
  pub is_mariadb : G → Bool
  pub contain : G → G → Bool
  -- The hexadecimal digest.
  pub sha256_hex : Text → Text
  -- The hexadecimal text of eight random bytes.
  pub random_hex : Text
  pub now : Time
  pub render : Value → Text
