-- ===== src/Binlog/Types.antt =====
-- The data of internal/binlog/transaction.go and internal/binlog/schema_fetcher.go.
-- A time is the number of nanoseconds since Go's zero time, which is 0.
use mysql_pitr.Base.{ℕ, Bool, List, Option}
use mysql_pitr.Base.Text.{Text}
use mysql_pitr.Base.Int.{ℤ}

abbrev pub Time : Type 0
Time = ℕ

-- The UTC fields of a time value in a row image.
pub record Civil : Type 0 where
  pub year : ℕ
  pub month : ℕ
  pub day : ℕ
  pub hour : ℕ
  pub minute : ℕ
  pub second : ℕ
  pub nanos : ℕ

-- What an `interface{}` of a row image holds. A float is its IEEE bits, a decimal its coefficient
-- and exponent, and a value of any other type its rendering by %v.
pub data Value : Type 0 where
  null : Value
  int : ℤ → Value
  float32 : ℕ → Value
  float64 : ℕ → Value
  decimal : ℤ → ℤ → Value
  time : Civil → Value
  bytes : Text → Value
  str : Text → Value
  bool : Bool → Value
  other : Text → Value

-- The three actions; any further value of `RowAction` is an `unknown_action`.
pub data RowAction : Type 0 where
  action_insert action_update action_delete : RowAction
  unknown_action : ℤ → RowAction

pub record TableRef : Type 0 where
  pub schema : Text
  pub table : Text

pub record TimeRange : Type 0 where
  pub start : Time
  pub end : Time

pub record RowChange : Type 0 where
  pub schema : Text
  pub table : Text
  pub action : RowAction
  pub before : List Value
  pub after : List Value
  pub column_names : List Text

pub record Transaction : Type 0 where
  pub tx_id : Text
  pub gtid : Text
  pub xid : ℕ
  pub commit_time : Time
  pub schema : Text
  pub statements : List RowChange
  pub truncated : Bool

-- A binlog position of go-mysql.
pub record Position : Type 0 where
  pub name : Text
  pub pos : ℕ

-- The filter of a scan over the GTID sets `G` of go-mysql; a nil slice is the empty list.
pub record Filter (G : Type 0) : Type 0 where
  pub binlog_dir : Text
  pub tables : List TableRef
  pub time_range : Option TimeRange
  pub gtid_set : Option G
  pub start_pos : Position
  pub end_pos : Position
  pub max_rows_per_tx : ℤ
  pub selected_tx_ids : List Text

pub record ColumnDef : Type 0 where
  pub name : Text
  pub type_name : Text
  pub nullable : Bool
  pub is_auto_inc : Bool

pub record TableSchema : Type 0 where
  pub schema : Text
  pub table : Text
  pub columns : List ColumnDef
  pub primary_key : List Text
