-- ===== src/Binlog/Transaction.antt =====
-- Building a transaction and its identifier: internal/binlog/transaction.go.
use mysql_pitr.Base.{
  ℕ, zero, suc, ◌+◌, ◌-◌, ◌*◌, ◌/◌, ◌%◌, false, List, [], ◌∷◌, ◌++◌, take, ◌==◌, if◌then◌else◌, ◌^◌,
}
use mysql_pitr.Base.Text.{Text, codes, is_empty}
use mysql_pitr.Base.Int.{pos, negsuc, nat_text}
use mysql_pitr.Base.Result.{Result, ok, err}
use mysql_pitr.Binlog.Types.{
  Time, Value, bytes, str, RowAction, action_insert, action_update, action_delete, unknown_action,
  RowChange, Transaction,
}
use mysql_pitr.Binlog.Library.{Library}

module _ {G : Type 0} (lib : Library G) where
  abbrev pub first_tx_id : Text → ℕ → Text
  first_tx_id gtid xid =
      if is_empty gtid
      then (if xid == 0 then codes "tx-" ++ lib.random_hex else codes "xid-" ++ nat_text xid)
      else gtid

  unfoldable pub new_transaction : Text → ℕ → Time → Text → Result Transaction
  new_transaction gtid xid commit_time schema =
      if commit_time == 0
      then err (codes "binlog: commit time must be non-zero")
      else ok (record {
        tx_id = first_tx_id gtid xid;
        gtid = gtid;
        xid = xid;
        commit_time = commit_time;
        schema = schema;
        statements = [];
        truncated = false;
      })

  -- The 64-bit little-endian bytes of a number.
  abbrev little_endian : ℕ → ℕ → Text
  little_endian zero n = []
  little_endian (suc k) n = (n % 256) ∷ little_endian k (n / 256)

  abbrev max_sig_rows : ℕ
  max_sig_rows = 256

  -- The first 64 bytes of a text, or a rendering.
  unfoldable pub image_prefix : Value → Text
  image_prefix (bytes s) = take 64 s
  image_prefix (str s) = take 64 s
  image_prefix v = lib.render v

  image_prefixes : List Value → Text
  image_prefixes [] = []
  image_prefixes (v ∷ vs) = image_prefix v ++ image_prefixes vs

  -- `byte(rc.Action)`.
  abbrev action_byte : RowAction → ℕ
  action_byte action_insert = 0
  action_byte action_update = 1
  action_byte action_delete = 2
  action_byte (unknown_action (pos n)) = n % 256
  action_byte (unknown_action (negsuc n)) = 255 - n % 256

  signature_of : List RowChange → Text
  signature_of [] = []
  signature_of (rc ∷ rcs) =
      (rc.schema
        ++ (b'.'
            ∷ (rc.table
                ++ (action_byte rc.action
                    ∷ (image_prefixes rc.before ++ image_prefixes rc.after)))))
      ++ signature_of rcs

  pub row_signature : List RowChange → Text
  row_signature rows = signature_of (take max_sig_rows rows)

  -- `commitTs.UnixNano()` as a uint64: the times count from Go's zero time.
  abbrev unix_nanos : Time → ℕ
  unix_nanos t = (t + 2 ^ 64 * 4 - 62135596800 * 1000000000) % 2 ^ 64

  pub anonymous_tx_id : Time → List RowChange → Text
  anonymous_tx_id commit_ts rows =
      codes "tx-" ++ lib.sha256_hex (little_endian 8 (unix_nanos commit_ts) ++ row_signature rows)
