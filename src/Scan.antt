-- ===== src/Scan.antt =====
-- The scan stream: internal/scan/scan.go. The transactions of the binlog scanner and its final
-- error are a list and an option; the results that Stream sends are the list that it returns.
pub mod Preview
pub mod Tables
mod Tests
use mysql_pitr.Base.{
  ℕ, zero, suc, ◌∷◌, [], List, ◌++◌, Option, none, some, Bool, true, false, ltb, if◌then◌else◌,
  length, not, ◌&&◌, ◌||◌,
}
use mysql_pitr.Base.Text.{Text, codes, text_eq}
use mysql_pitr.Base.Int.{ℤ, pos, is_nonpositive, pos_part}
use mysql_pitr.Base.Result.{Result, ok, err}
use mysql_pitr.Base.Dict.{lookup, insert}
use mysql_pitr.Binlog.Types.{
  Time, TableRef, RowChange, Transaction, TableSchema, Filter, action_insert,
}
use mysql_pitr.Reverse.Types.{Formats, Options, Statement}
use mysql_pitr.Reverse.Generate.{generate, table_key}

pub data Mode : Type 0 where
  meta_only with_sql selected_sql : Mode

pub record TxMeta : Type 0 where
  pub tx_id : Text
  pub gtid : Text
  pub xid : ℕ
  pub commit_time : Time
  pub schema : Text
  pub tables : List TableRef
  pub row_count : ℕ
  pub truncated : Bool

pub record ScanResult : Type 0 where
  pub meta : TxMeta
  pub sql : List Statement

-- The schemas that were fetched, and the tables asked for, the last one first.
pub record Cache : Type 0 where
  pub schemas : List (Text × TableSchema)
  pub asked : List TableRef

-- `FetchSchema`, by the tables asked for before; `none` is an error.
abbrev pub Fetcher : Type 0
Fetcher = List TableRef → TableRef → Option TableSchema

-- `t == ref`.
abbrev pub ref_eq : TableRef → TableRef → Bool
ref_eq t ref = text_eq t.schema ref.schema && text_eq t.table ref.table

unfoldable pub contains_ref : List TableRef → TableRef → Bool
contains_ref [] ref = false
contains_ref (t ∷ tables) ref = ref_eq t ref || contains_ref tables ref

abbrev pub ref_of : RowChange → TableRef
ref_of rc = record { schema = rc.schema; table = rc.table }

-- The loop over the statements, `tables` being found so far.
unfoldable pub add_tables : List TableRef → List RowChange → List TableRef
add_tables tables [] = tables
add_tables tables (rc ∷ rcs) =
    add_tables (if contains_ref tables (ref_of rc) then tables else tables ++ ref_of rc ∷ []) rcs

unfoldable pub meta_of : Transaction → TxMeta
meta_of tx = record {
  tx_id = tx.tx_id;
  gtid = tx.gtid;
  xid = tx.xid;
  commit_time = tx.commit_time;
  schema = tx.schema;
  tables = add_tables [] tx.statements;
  row_count = length tx.statements;
  truncated = tx.truncated;
}

abbrev empty_row : RowChange
empty_row = record {
  schema = [];
  table = [];
  action = action_insert;
  before = [];
  after = [];
  column_names = [];
}

abbrev pub warning_only : Text → Text → List Statement
warning_only tx_id w =
    record { sql = []; tx_id = tx_id; tx_order = 0; source_row = empty_row; warnings = w ∷ [] } ∷ []

-- What a call of `FetchSchema` leaves; a failed one is not cached.
abbrev pub fetched : RowChange → Option TableSchema → Cache → Cache
fetched rc none c = record c { asked = ref_of rc ∷ c.asked }
fetched rc (some sch) c = record {
  schemas = insert (table_key rc) sch c.schemas;
  asked = ref_of rc ∷ c.asked;
}

-- One table of the loop in `generateSQL`.
unfoldable pub fetch_schema : Fetcher → RowChange → Cache → Cache
fetch_schema fetch rc c = elim (lookup (table_key rc) c.schemas) [
  | some sch ↦ c
  | none ↦ fetched rc (fetch c.asked (ref_of rc)) c
]

unfoldable pub fetch_schemas : Fetcher → List RowChange → Cache → Cache
fetch_schemas fetch [] c = c
fetch_schemas fetch (rc ∷ rcs) c = fetch_schemas fetch rcs (fetch_schema fetch rc c)

-- `reverse.Options{}`.
abbrev pub no_options : Options
no_options = record { ignore_auto_increment = false; max_statement_size = pos 0 }

abbrev pub or_warning : Text → Result (List Statement) → List Statement
or_warning tx_id (ok stmts) = stmts
or_warning tx_id (err e) = warning_only tx_id (codes "reverse generate failed: " ++ e)

unfoldable pub generate_sql : Formats → Fetcher → Transaction → Cache → List Statement × Cache
generate_sql fmt fetch tx c =
    if tx.truncated
    then (
      warning_only tx.tx_id (codes "transaction truncated, cannot generate full reverse SQL"),
      c,
    )
    else let c' = fetch_schemas fetch tx.statements c in
      (or_warning tx.tx_id (generate fmt tx c'.schemas no_options), c')

-- A preview limit of 0 or less stands for 500.
abbrev pub preview_limit : ℤ → ℕ
preview_limit v = if is_nonpositive v then 500 else pos_part v

-- The filter that the scanner gets; a row limit of 0 or less leaves the filter's own.
unfoldable pub scan_filter : {G : Type 0} → Text → ℤ → Filter G → Filter G
scan_filter dir max_rows f =
    let f' = record f { binlog_dir = dir } in
    if is_nonpositive max_rows then f' else record f' { max_rows_per_tx = max_rows }

module _ (fmt : Formats) (fetch : Fetcher) where
  -- The result of one transaction.
  unfoldable pub result_of : Mode → Transaction → Cache → ScanResult × Cache
  result_of meta_only tx c = (record { meta = meta_of tx; sql = [] }, c)
  result_of _ tx c =
      let (sql, c') = generate_sql fmt fetch tx c in (record { meta = meta_of tx; sql = sql }, c')

  -- The loop of `Stream`, `count` results being sent: the results and the error. `ctx_errs` are
  -- the context's answers, one for each result; it is alive behind them.
  unfoldable pub stream :
      Mode
      → ℕ
      → ℕ
      → List (Option Text)
      → Option Text
      → Cache
      → List Transaction
      → List ScanResult × Option Text
  stream mode limit count ctx end c [] = ([], end)
  stream mode limit count (some e ∷ ctx) end c (tx ∷ txs) = ([], some e)
  stream mode limit count (none ∷ ctx) end c (tx ∷ txs) =
      let (r, c') = result_of mode tx c in
      let (rs, e) = stream mode limit (suc count) ctx end c' txs in
      if ltb (suc count) limit then (r ∷ rs, e) else (r ∷ [], none)
  stream mode limit count [] end c (tx ∷ txs) =
      let (r, c') = result_of mode tx c in
      let (rs, e) = stream mode limit (suc count) [] end c' txs in
      if ltb (suc count) limit then (r ∷ rs, e) else (r ∷ [], none)
