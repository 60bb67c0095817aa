-- ===== src/Scan/Preview.antt =====
-- How many results Stream of internal/scan/scan.go sends.
use mysql_pitr.Base.{
  ℕ, zero, suc, ◌+◌, ◌<◌, ◌≡◌, refl, ap, List, [], ◌∷◌, Option, none, arith, map, take, length, ltb,
  if◌then◌else◌, lt→ltb, le→ltb-false,
}
use mysql_pitr.Base.Text.{Text}
use mysql_pitr.Binlog.Types.{Transaction}
use mysql_pitr.Reverse.Types.{Formats}
use mysql_pitr.Scan.{
  Mode, meta_only, with_sql, selected_sql, Fetcher, ScanResult, Cache, TxMeta, meta_of, result_of,
  stream,
}

abbrev pub metas : List ScanResult → List TxMeta
metas = map (λ (r : ScanResult). r.meta)

module _ (fmt : Formats) (fetch : Fetcher) where
  result_of-meta :
      (mode : Mode) (tx : Transaction) (c : Cache)
      → (result_of fmt fetch mode tx c).0.meta ≡ meta_of tx
  unfolding result_of
  result_of-meta meta_only tx c = refl
  result_of-meta with_sql tx c = refl
  result_of-meta selected_sql tx c = refl

  stream-take :
      (mode : Mode) (limit left count : ℕ) (end : Option Text) (c : Cache) (txs : List Transaction)
      → limit ≡ suc (left + count)
      → (metas (stream fmt fetch mode limit count [] end c txs).0
          ≡ take (suc left) (map meta_of txs))
        × ((stream fmt fetch mode limit count [] end c txs).1
            ≡ (if ltb (length txs) (suc left) then end else none))
  unfolding stream
  stream-take mode limit left count end c [] e = (refl, ground arith)
  stream-take mode limit zero count end c (tx ∷ txs) e =
      rw (le→ltb-false (suc count) limit (omega arith))
        (ap (λ m. m ∷ []) (result_of-meta mode tx c), ground arith)
  stream-take mode limit (suc left) count end c (tx ∷ txs) e =
      let (ms, q) =
        stream-take mode limit left (suc count) end (result_of fmt fetch mode tx c).1 txs
          (omega arith) in
      rw (lt→ltb (suc count) limit (omega arith))
        (rw (result_of-meta mode tx c) (ap (◌∷◌ (meta_of tx)) ms), ground (arith, q))

-- A scan whose context stays alive previews the first transactions of the scanner, as many as the
-- limit allows, in their order; it ends with the scanner's error only if that came before the limit.
pub stream-preview :
    (fmt : Formats) (fetch : Fetcher) (mode : Mode) (limit : ℕ) (end : Option Text) (c : Cache)
    (txs : List Transaction)
    → 0 < limit
    → (metas (stream fmt fetch mode limit 0 [] end c txs).0 ≡ take limit (map meta_of txs))
      × ((stream fmt fetch mode limit 0 [] end c txs).1
          ≡ (if ltb (length txs) limit then end else none))
stream-preview fmt fetch mode zero end c txs h = absurd (omega arith)
stream-preview fmt fetch mode (suc left) end c txs h =
    stream-take fmt fetch mode (suc left) left 0 end c txs (omega arith)
