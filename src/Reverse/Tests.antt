-- ===== src/Reverse/Tests.antt =====
-- The SQL generator of internal/reverse on a transaction of two rows.
use mysql_pitr.Base.{◌+◌, length, ℕ, ◌≡◌, refl, false, List, [], ◌∷◌, ◌++◌, some, All, map, arith}
use mathlib.Core.List.{reverse}
use mysql_pitr.Base.Text.{join, Text, codes}
use mysql_pitr.Base.Int.{pos}
use mysql_pitr.Base.Result.{ok, value_or}
use mysql_pitr.Binlog.Types.{
  RowChange, RowAction, Transaction, TableSchema, action_insert, action_delete, Value, int, str,
  bytes,
}
use mysql_pitr.Reverse.Types.{Formats, Options, Statement}
use mysql_pitr.Reverse.Literal.{quote_ident, format_value}
use mysql_pitr.Reverse.Literal.Lexer.{read_name, read_text, read_bytes}
use mysql_pitr.Reverse.Literal.RoundTrip.{read_name-quote_ident, read_text-str, read_bytes-bytes}
use mysql_pitr.Reverse.Where.{build_where}
use mysql_pitr.Reverse.Where.Places.{IsUsable, IsCovered, conditions}
use mysql_pitr.Reverse.Where.Laws.{build_where-by_key}
use mysql_pitr.Reverse.Generate.{generate, size_limit}
use mysql_pitr.Reverse.Generate.Order.{places, generate-order}
use mysql_pitr.Reverse.Generate.Bounds.{Accounted, generate-Accounted}

abbrev formats : Formats
formats = record {
  float32_text = λ n. [];
  float64_text = λ n. [];
  decimal_text = λ c e. [];
  go_quote = λ s. s;
}

-- The text `O'R\`, and what may follow a value.
abbrev tricky : Text
tricky = 79 ∷ 39 ∷ 82 ∷ 92 ∷ []

abbrev rest : Text
rest = codes ", 1"

read_text-str_example : read_text (format_value formats (str tricky) ++ rest) ≡ some (tricky, rest)
read_text-str_example = read_text-str formats tricky rest refl

read_name-quote_ident_example :
    read_name (quote_ident (96 ∷ 97 ∷ []) ++ rest) ≡ some (96 ∷ 97 ∷ [], rest)
read_name-quote_ident_example = read_name-quote_ident (96 ∷ 97 ∷ []) rest refl

read_bytes-bytes_example :
    read_bytes (format_value formats (bytes (1 ∷ 255 ∷ [])) ++ rest) ≡ some (1 ∷ 255 ∷ [], rest)
read_bytes-bytes_example =
    read_bytes-bytes formats (1 ∷ 255 ∷ []) rest (omega arith, (omega arith, tt))

abbrev names : List Text
names = codes "id" ∷ codes "name" ∷ []

abbrev row : RowAction → List Value → List Value → RowChange
row action before after = record {
  schema = codes "shop";
  table = codes "orders";
  action = action;
  before = before;
  after = after;
  column_names = names;
}

abbrev inserted : RowChange
inserted = row action_insert [] (int (pos 1) ∷ str tricky ∷ [])

abbrev transaction : Transaction
transaction = record {
  tx_id = codes "tx-1";
  gtid = [];
  xid = 7;
  commit_time = 1;
  schema = codes "shop";
  statements = inserted ∷ row action_delete (int (pos 2) ∷ str tricky ∷ []) [] ∷ [];
  truncated = false;
}

abbrev schemas : List (Text × TableSchema)
schemas =
    (
      codes "shop.orders",
      record {
        schema = codes "shop";
        table = codes "orders";
        columns = [];
        primary_key = codes "id" ∷ [];
      },
    )
    ∷ []

abbrev options : Options
options = record { ignore_auto_increment = false; max_statement_size = pos 0 }

abbrev generated : List Statement
generated = value_or [] (generate formats transaction schemas options)

generated-ok : generate formats transaction schemas options ≡ ok generated
unfolding generate
generated-ok = refl

generate-order_example :
    (map (λ (st : Statement). st.source_row) generated ≡ reverse transaction.statements)
    × (map (λ (st : Statement). st.tx_order) generated ≡ places 0 (reverse transaction.statements))
    × All (λ (st : Statement). st.tx_id ≡ codes "tx-1") generated
generate-order_example = generate-order formats transaction schemas options generated generated-ok

generate-Accounted_example :
    All (λ (st : Statement). Accounted (size_limit (pos 0)) st.sql st.warnings) generated
generate-Accounted_example =
    generate-Accounted formats transaction schemas options generated generated-ok

build_where-by_key_example :
    let (cond, warns) = build_where formats inserted names (codes "id" ∷ []) in
    (places : List ℕ) × (cond
      ≡ join (codes " AND ") (conditions formats names inserted.after places))
    × All (IsUsable names (codes "id" ∷ []) inserted.after) places
    × All (IsCovered names inserted.after places) (codes "id" ∷ [])
    × (length warns + length places ≡ 1)
build_where-by_key_example = build_where-by_key formats inserted names (codes "id" ∷ [])
