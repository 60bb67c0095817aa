-- ===== src/Pitr/Preview.antt =====
-- The in-memory preview of a scan: opPreview, stageTxMeta and stageSQL of
-- internal/server/pitr/handler.go. Each call runs under the preview's mutex.
pub mod Invariant
use mysql_pitr.Base.{
  ℕ, ◌==◌, if◌then◌else◌, Bool, true, false, List, [], ◌∷◌, ◌++◌, Option, none, some, any, length,
  leb,
}
use mysql_pitr.Base.Text.{Text, is_empty, contains}
use mysql_pitr.Base.Int.{ℤ, pos, negsuc, is_nonpositive, pos_part}
use mysql_pitr.Base.Dict.{lookup, insert, delete}
use mysql_pitr.Binlog.Types.{Time, TableRef}

pub record TxMetaWire : Type 0 where
  pub tx_id : Text
  pub gtid : Text
  pub xid : ℕ
  pub commit_time : Time
  pub schema : Text
  pub tables : List TableRef
  pub row_count : ℤ
  pub truncated : Bool

pub record StatementWire : Type 0 where
  pub sql : Text
  pub tx_id : Text
  pub tx_order : ℤ
  pub warnings : List Text

-- The set `known` lists its texts in the order in which they came.
pub record Preview : Type 0 where
  pub metas : List TxMetaWire
  pub sql_by_tx : List (Text × List StatementWire)
  pub known : List Text
  pub max_entries : ℕ
  pub truncated : Bool

abbrev default_max_preview : ℕ
default_max_preview = 500

abbrev pub preview_cap : ℤ → ℕ
preview_cap v = if is_nonpositive v then default_max_preview else pos_part v

abbrev pub new_preview : ℕ → Preview
new_preview n = record {
  metas = [];
  sql_by_tx = [];
  known = [];
  max_entries = n;
  truncated = false;
}

-- `h.previews[opID]`, created on first use.
abbrev pub preview_for : Text → List (Text × Preview) → Preview
preview_for op_id previews = elim (lookup op_id previews) [
  | none ↦ new_preview default_max_preview
  | some p ↦ p
]

abbrev pub forget_preview : Text → List (Text × Preview) → List (Text × Preview)
forget_preview op_id previews = delete op_id previews

unfoldable pub stage_tx_meta : TxMetaWire → Preview → Preview
stage_tx_meta meta p =
    if contains p.known meta.tx_id
    then p
    else if leb p.max_entries (length p.metas)
    then record p { truncated = true }
    else record p { metas = p.metas ++ meta ∷ []; known = p.known ++ meta.tx_id ∷ [] }

-- `p.sqlByTx[txID]`, nil where there is none.
abbrev pub or_none : Option (List StatementWire) → List StatementWire
or_none none = []
or_none (some ws) = ws

abbrev pub sql_of : Text → Preview → List StatementWire
sql_of tx_id p = or_none (lookup tx_id p.sql_by_tx)

abbrev pub int_eq : ℤ → ℤ → Bool
int_eq (pos m) (pos n) = m == n
int_eq (negsuc m) (negsuc n) = m == n
int_eq _ _ = false

abbrev pub has_order : ℤ → List StatementWire → Bool
has_order n = any (λ (ex : StatementWire). int_eq ex.tx_order n)

-- One statement of the loop in `stageSQL`.
unfoldable pub stage_statement : StatementWire → Preview → Preview
stage_statement w p =
    if is_empty w.tx_id
    then p
    else if contains p.known w.tx_id
    then (if has_order w.tx_order (sql_of w.tx_id p)
        then p
        else record p { sql_by_tx = insert w.tx_id (sql_of w.tx_id p ++ w ∷ []) p.sql_by_tx })
    else p

unfoldable pub stage_sql : List StatementWire → Preview → Preview
stage_sql [] p = p
stage_sql (w ∷ ws) p = stage_sql ws (stage_statement w p)
