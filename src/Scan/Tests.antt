-- ===== src/Scan/Tests.antt =====
-- The scan stream of internal/scan on two transactions.
use mysql_pitr.Base.{
  ◌≡◌, true, false, List, [], ◌∷◌, none, take, map, ltb, length, if◌then◌else◌, arith,
}
use mysql_pitr.Base.Text.{Text, codes}
use mysql_pitr.Binlog.Types.{RowChange, Transaction, TableRef, action_insert}
use mysql_pitr.Reverse.Types.{Formats}
use mysql_pitr.Scan.{with_sql, Fetcher, Cache, meta_of, stream, contains_ref}
use mysql_pitr.Scan.Preview.{metas, stream-preview}
use mysql_pitr.Scan.Tables.{is_distinct, touches, meta_of-tables}

abbrev formats : Formats
formats = record {
  float32_text = λ n. [];
  float64_text = λ n. [];
  decimal_text = λ c e. [];
  go_quote = λ s. s;
}

abbrev row : Text → RowChange
row table = record {
  schema = codes "shop";
  table = table;
  action = action_insert;
  before = [];
  after = [];
  column_names = [];
}

abbrev transaction : Text → Transaction
transaction id = record {
  tx_id = id;
  gtid = [];
  xid = 7;
  commit_time = 1;
  schema = codes "shop";
  statements = row (codes "orders") ∷ row (codes "items") ∷ row (codes "orders") ∷ [];
  truncated = false;
}

abbrev transactions : List Transaction
transactions = transaction (codes "a") ∷ transaction (codes "b") ∷ []

-- No schema can be fetched.
abbrev fetch : Fetcher
fetch = λ asked ref. none

abbrev no_cache : Cache
no_cache = record { schemas = []; asked = [] }

stream-preview_example :
    (metas (stream formats fetch with_sql 1 0 [] none no_cache transactions).0
      ≡ take 1 (map meta_of transactions))
    × ((stream formats fetch with_sql 1 0 [] none no_cache transactions).1
        ≡ (if ltb (length transactions) 1 then none else none))
stream-preview_example =
    stream-preview formats fetch with_sql 1 none no_cache transactions (omega arith)

meta_of-tables_example :
    (is_distinct (meta_of (transaction (codes "a"))).tables ≡ true)
    × ((ref : TableRef)
        → contains_ref (meta_of (transaction (codes "a"))).tables ref
          ≡ touches (transaction (codes "a")).statements ref)
meta_of-tables_example = meta_of-tables (transaction (codes "a"))
