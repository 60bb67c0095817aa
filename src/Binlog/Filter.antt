-- ===== src/Binlog/Filter.antt =====
-- Which transactions a scan keeps: MatchGTID of internal/binlog/gtid.go and matchesFilter of
-- internal/binlog/engine.go.
use mysql_pitr.Base.{
  Bool, true, false, not, ◌&&◌, ◌||◌, List, [], ◌∷◌, ◌++◌, Option, none, some, ltb, ◌==◌,
  if◌then◌else◌, any,
}
use mathlib.Core.Option
use mysql_pitr.Base.Text.{Text, codes, is_empty, contains, text_eq}
use mysql_pitr.Binlog.Types.{Time, TimeRange, TableRef, RowChange, Transaction, Filter}
use mysql_pitr.Binlog.Library.{Library}

-- `strings.SplitN(s, ":", 2)`, if the separator is there.
abbrev split_colon : Text → Option (Text × Text)
split_colon [] = none
split_colon (c ∷ s) =
    let rest = Option.map (λ (p : Text × Text). (c ∷ p.0, p.1)) (split_colon s) in
    if c == b':' then some ([], s) else rest

module _ {G : Type 0} (lib : Library G) where
  abbrev parse_like : G → Text → Option G
  parse_like set s = if lib.is_mariadb set then lib.parse_mariadb s else lib.parse_mysql s

  abbrev contains_range : G → Option G → Bool
  contains_range set none = false
  contains_range set (some sub) = lib.contain set sub

  -- The single GTID as a range of length one, where the set is not nil.
  unfoldable pub match_gtid : G → Text → Bool
  match_gtid set gtid = if is_empty gtid then false else elim (split_colon gtid) [
    | none ↦ false
    | some (sid, seq) ↦
        contains_range set (parse_like set (sid ++ (codes ":" ++ (seq ++ (codes "-" ++ seq)))))
  ]

  abbrev pub in_time_range : Option TimeRange → Time → Bool
  in_time_range none t = true
  in_time_range (some r) t = not (ltb t r.start || ltb r.end t)

  abbrev in_gtid_set : Option G → Text → Bool
  in_gtid_set none gtid = true
  in_gtid_set (some set) gtid = is_empty gtid || match_gtid set gtid

  abbrev is_selected : List Text → Text → Bool
  is_selected [] id = true
  is_selected (s ∷ ids) id = contains (s ∷ ids) id

  abbrev touches : TableRef → RowChange → Bool
  touches want rc = text_eq rc.schema want.schema && text_eq rc.table want.table

  abbrev in_tables : List TableRef → List RowChange → Bool
  in_tables [] rows = true
  in_tables (t ∷ ts) rows = any (λ want. any (touches want) rows) (t ∷ ts)

  -- The tests in the code's order, each of which may refuse the transaction.
  unfoldable pub matches_filter : Transaction → Filter G → Bool
  matches_filter tx f =
      in_time_range f.time_range tx.commit_time
      && (in_gtid_set f.gtid_set tx.gtid
          && (is_selected f.selected_tx_ids tx.tx_id && in_tables f.tables tx.statements))
