-- ===== src/Pitr/Filters/Recorded.antt =====
-- The stored filter of internal/server/pitr/handler.go on its way to the agent of a directed second
-- scan, and back.
use mysql_pitr.Base.{ℕ, suc, ◌%◌, ◌≤◌, ◌≡◌, ◌≢◌, ◌⊎◌, if◌then◌else◌, false, [], Option, none, some}
use mysql_pitr.Base.Text.{Text, is_empty}
use mysql_pitr.Pitr.Calls.{ScanFilter}
use mysql_pitr.Pitr.Filters.{Formats}

-- A moment that RFC 3339 prints as it is: whole seconds, up to the end of the year 9999.
abbrev pub IsPrintable : ℕ → Type 0
IsPrintable n = (n % 1000000000 ≡ 0) × (n ≤ 315537897599000000000)

-- A printed time is not empty, and parses to what was printed, if it is printable; so does a printed
-- set that was read from a text.
pub record FormatsRoundTrip {G : Type 0} (fm : Formats G) : Type 0 where
  pub time :
      (t : ℕ)
      → IsPrintable (suc t)
      → (is_empty (fm.time_text (suc t)) ≡ false)
        × (fm.parse_time (fm.time_text (suc t)) ≡ some (suc t))
  pub set :
      (t : Text) (g : G)
      → is_empty t ≡ false
      → fm.parse_mysql_set t ≡ some g
      → (is_empty (fm.set_text g) ≡ false) × (fm.parse_mysql_set (fm.set_text g) ≡ some g)

module _ {G : Type 0} (fm : Formats G) where
  -- No bound, or a printable time other than the zero time.
  abbrev pub IsBound : Text → Type 0
  IsBound t =
      (t ≡ [])
      ⊎ ((n : ℕ) × (is_empty t ≡ false) × (fm.parse_time t ≡ some (suc n)) × IsPrintable (suc n))

-- What two filters on the wire ask for alike: times as they are parsed, the tables, the positions and
-- the chosen transactions.
pub record SameConstraints {G : Type 0} (fm : Formats G) (w w' : ScanFilter) : Type 0 where
  pub start :
      ((w.time_start ≡ []) × (w'.time_start ≡ []))
      ⊎ ((w.time_start ≢ []) × (fm.parse_time w'.time_start ≡ fm.parse_time w.time_start))
  pub end :
      ((w.time_end ≡ []) × (w'.time_end ≡ []))
      ⊎ ((w.time_end ≢ []) × (fm.parse_time w'.time_end ≡ fm.parse_time w.time_end))
  pub tables : w'.tables ≡ w.tables
  pub start_file : w'.start_file ≡ w.start_file
  pub end_file : w'.end_file ≡ w.end_file
  pub chosen : w'.selected_tx_ids ≡ w.selected_tx_ids

module _ {G : Type 0} (fm : Formats G) (law : FormatsRoundTrip fm) where
  abbrev set_of : Text → Option G
  set_of t = if is_empty t then none else fm.parse_mysql_set t

  -- A bound that is stored and printed again.
  abbrev SameBound : Text → Text → Type 0
  SameBound t t' = ((t ≡ []) × (t' ≡ [])) ⊎ ((t ≢ []) × (fm.parse_time t' ≡ fm.parse_time t))
