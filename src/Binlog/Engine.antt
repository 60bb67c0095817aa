-- ===== src/Binlog/Engine.antt =====
-- The scanner: it puts the row changes of binlog events together into transactions;
-- internal/binlog/engine.go. The transactions that the parser sends are the list `out`; a consumer
-- that takes them all is assumed, so that `Close` is not called before the end.
pub mod Emitted
pub mod Segments
use mysql_pitr.Base.{
  ℕ, zero, suc, ◌+◌, ◌-◌, ◌*◌, ◌/◌, ◌%◌, drop, Bool, true, false, not, ◌&&◌, List, [], ◌∷◌, ◌++◌,
  Option, none, some, ltb, ◌==◌, if◌then◌else◌, all, length, take,
}
use mathlib.Core.Option
use mysql_pitr.Base.Text.{Text, codes, is_empty, text_eq}
use mysql_pitr.Base.Int.{ℤ, pos, negsuc, int_text}
use mysql_pitr.Base.Result.{Result, ok, err}
use mysql_pitr.Binlog.Types.{
  Time, Value, RowAction, action_insert, action_update, action_delete, RowChange, Transaction,
  Filter, TimeRange,
}
use mysql_pitr.Binlog.Library.{Library}
use mysql_pitr.Binlog.Transaction.{new_transaction, anonymous_tx_id}
use mysql_pitr.Binlog.Filter.{matches_filter}

-- The event types that a rows event may have.
pub data EventType : Type 0 where
  write_rows_v1 write_rows_v2 update_rows_v1 update_rows_v2 delete_rows_v1 delete_rows_v2 :
      EventType
  other_type : EventType

pub record TableMap : Type 0 where
  pub schema : Text
  pub table : Text

-- The decoded bodies of go-mysql that the scanner tells apart.
pub data EventBody : Type 0 where
  format_description rotate mariadb_gtid other_body : EventBody
  table_map : ℕ → TableMap → EventBody
  rows : ℕ → List (List Value) → EventBody
  query : Text → Text → EventBody
  xid : ℕ → EventBody
  gtid : Text → ℤ → EventBody

-- The header's timestamp counts seconds of the Unix epoch.
pub record Event : Type 0 where
  pub event_type : EventType
  pub timestamp : ℕ
  pub log_pos : ℕ
  pub body : EventBody

pub record PendingTx : Type 0 where
  pub schema : Text
  pub rows : List RowChange
  pub xid : ℕ
  pub gtid : Text
  pub commit_ts : Time

-- `&pendingTx{}`.
abbrev pub empty_tx : PendingTx
empty_tx = record { schema = []; rows = []; xid = 0; gtid = []; commit_ts = 0 }

-- The variables of one file, and the transactions sent so far.
pub record Scan : Type 0 where
  pub pending : Option PendingTx
  pub table_maps : List (ℕ × TableMap)
  pub out : List Transaction

-- `time.Unix(ts, 0)`, as nanoseconds since Go's zero time.
abbrev pub event_time : ℕ → Time
event_time ts = (62135596800 + ts) * 1000000000

-- The newest entry of a table number.
abbrev pub table_of : ℕ → List (ℕ × TableMap) → Option TableMap
table_of id [] = none
table_of id ((j, tm) ∷ m) = if j == id then some tm else table_of id m

abbrev image_row : TableMap → RowAction → List Value → List Value → RowChange
image_row tm action before after = record {
  schema = tm.schema;
  table = tm.table;
  action = action;
  before = before;
  after = after;
  column_names = [];
}

abbrev pub insert_rows : TableMap → List (List Value) → List RowChange
insert_rows tm [] = []
insert_rows tm (row ∷ images) = image_row tm action_insert [] row ∷ insert_rows tm images

abbrev pub delete_rows : TableMap → List (List Value) → List RowChange
delete_rows tm [] = []
delete_rows tm (row ∷ images) = image_row tm action_delete row [] ∷ delete_rows tm images

-- The images are pairs of before and after; a last odd one is left out.
abbrev pub update_rows : TableMap → List (List Value) → List RowChange
update_rows tm (before ∷ after ∷ images) =
    image_row tm action_update before after ∷ update_rows tm images
update_rows tm _ = []

abbrev row_images : TableMap → EventType → List (List Value) → Option (List RowChange)
row_images tm write_rows_v1 images = some (insert_rows tm images)
row_images tm write_rows_v2 images = some (insert_rows tm images)
row_images tm update_rows_v1 images = some (update_rows tm images)
row_images tm update_rows_v2 images = some (update_rows tm images)
row_images tm delete_rows_v1 images = some (delete_rows tm images)
row_images tm delete_rows_v2 images = some (delete_rows tm images)
row_images tm other_type images = none

-- `none` is an error, upon which the event is skipped.
unfoldable pub row_change_from_event :
    ℕ → List (List Value) → EventType → List (ℕ × TableMap) → Option (List RowChange)
row_change_from_event id images ty maps = elim (table_of id maps) [
  | none ↦ none
  | some tm ↦ row_images tm ty images
]

-- Two lower-case hexadecimal digits for each byte.
abbrev hex_nibble : ℕ → ℕ
hex_nibble d = if ltb d 10 then b'0' + d else b'a' + (d - 10)

abbrev hex_bytes : Text → Text
hex_bytes [] = []
hex_bytes (b ∷ s) = hex_nibble (b / 16) ∷ hex_nibble (b % 16) ∷ hex_bytes s

unfoldable pub format_gtid : Text → ℤ → Text
format_gtid sid gno =
    if length sid == 16
    then hex_bytes (take 4 sid)
      ++ (b'-'
          ∷ (hex_bytes (take 2 (drop 4 sid))
              ++ (b'-'
                  ∷ (hex_bytes (take 2 (drop 6 sid))
                      ++ (b'-'
                          ∷ (hex_bytes (take 2 (drop 8 sid))
                              ++ (b'-'
                                  ∷ (hex_bytes (take 6 (drop 10 sid))
                                      ++ (b':' ∷ int_text gno)))))))))
    else []

abbrev pub is_zero_sid : Text → Bool
is_zero_sid sid = all (λ b. b == 0) sid

-- The pending transaction, created where there is none.
abbrev pub or_empty : Option PendingTx → PendingTx
or_empty none = empty_tx
or_empty (some p) = p

-- A limit of 0 or less cuts nothing.
abbrev pub truncate : ℤ → Transaction → Transaction
truncate (negsuc n) tx = tx
truncate (pos n) tx =
    if ltb 0 n && ltb n (length tx.statements)
    then record tx { statements = take n tx.statements; truncated = true }
    else tx

abbrev at_time : ℕ → Option PendingTx → Option PendingTx
at_time ts = Option.map (λ (p : PendingTx). record p { commit_ts = event_time ts })

abbrev add_rows : Option (List RowChange) → Scan → Scan
add_rows none s = s
add_rows (some rcs) s =
    let p = or_empty s.pending in record s { pending = some (record p { rows = p.rows ++ rcs }) }

-- The scan behind a transaction that was sent.
abbrev sent : Scan → Result (List Transaction) → Result Scan
sent s (err e) = err e
sent s (ok out) = ok (record s { pending = none; out = out })

module _ {G : Type 0} (lib : Library G) (max_rows : ℤ) (f : Filter G) where
  -- The filter's limit, or the scanner's where that is 0.
  abbrev row_limit : ℤ
  row_limit = elim f.max_rows_per_tx [
    | pos n ↦ (if n == 0 then max_rows else pos n)
    | negsuc n ↦ negsuc n
  ]

  -- The fields that `emit` sets on a new transaction.
  abbrev pub with_statements : PendingTx → Result Transaction → Result Transaction
  with_statements p (err e) = err e
  with_statements p (ok tx) = ok (record tx {
    statements = p.rows;
    tx_id =
        if is_empty tx.gtid && tx.xid == 0
        then anonymous_tx_id lib tx.commit_time p.rows
        else tx.tx_id;
  })

  -- The transaction of a pending one at its commit time, before the filter.
  abbrev pub sealed_at : Time → PendingTx → Result Transaction
  sealed_at ts p = with_statements p (new_transaction lib p.gtid p.xid ts p.schema)

  -- A pending transaction without a commit time gets the clock's.
  unfoldable pub sealed_tx : PendingTx → Result Transaction
  sealed_tx p = sealed_at (if p.commit_ts == 0 then lib.now else p.commit_ts) p

  -- What `emit` sends: nothing for a transaction that is empty or filtered out.
  abbrev send : Result Transaction → List Transaction → Result (List Transaction)
  send (err e) out = err e
  send (ok tx) out =
      if matches_filter lib tx f then ok (out ++ truncate row_limit tx ∷ []) else ok out

  pub emit : PendingTx → List Transaction → Result (List Transaction)
  emit p out = elim p.rows [ [] ↦ ok out | r ∷ rs ↦ send (sealed_tx p) out ]

  -- Emit the pending transaction, if there is one, and forget it.
  abbrev close_tx : Option PendingTx → Scan → Result Scan
  close_tx none s = ok s
  close_tx (some p) s = sent s (emit p s.out)

  unfoldable pub handle_query : ℕ → Text → Text → Scan → Result Scan
  handle_query ts schema q s =
      if text_eq q (codes "BEGIN")
      then ok (record s { pending = some (record (or_empty s.pending) { schema = schema }) })
      else if text_eq q (codes "COMMIT")
      then close_tx (at_time ts s.pending) s
      else close_tx s.pending s

  abbrev with_gtid : Text → ℤ → PendingTx → PendingTx
  with_gtid sid gno p =
      if is_zero_sid sid then p else elim (lib.parse_mysql (format_gtid sid gno)) [
        | none ↦ p
        | some gs ↦ record p { gtid = format_gtid sid gno }
      ]

  unfoldable pub handle_body : EventType → ℕ → EventBody → Scan → Result Scan
  handle_body ty ts format_description s = ok s
  handle_body ty ts rotate s = ok s
  handle_body ty ts (table_map id tm) s = ok (record s { table_maps = (id, tm) ∷ s.table_maps })
  handle_body ty ts (rows id images) s =
      ok (add_rows (row_change_from_event id images ty s.table_maps) s)
  handle_body ty ts (query schema q) s = handle_query ts schema q s
  handle_body ty ts (xid x) s =
      close_tx
        (Option.map (λ (p : PendingTx). record p { xid = x; commit_ts = event_time ts }) s.pending)
        s
  handle_body ty ts (gtid sid gno) s =
      ok (record s { pending = some (with_gtid sid gno (or_empty s.pending)) })
  handle_body ty ts mariadb_gtid s = ok (record s { pending = some (or_empty s.pending) })
  handle_body ty ts other_body s = ok s

  unfoldable pub handle_event : Event → Scan → Result Scan
  handle_event ev s = handle_body ev.event_type ev.timestamp ev.body s
