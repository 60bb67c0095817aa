-- ===== src/Daemon/Execute/Reports.antt =====
-- What an agent reports of a run: internal/daemon/execute.go on top of internal/executor/executor.go.
use mysql_pitr.Base.{ℕ, suc, if◌then◌else◌, ◌≡◌, ◌≢◌, ◌⊎◌, List, [], ◌∷◌, ◌++◌, none, some}
use mysql_pitr.Base.Text.{Text, codes, is_empty}
use mysql_pitr.Pitr.Preview.{StatementWire}
use mysql_pitr.Executor.Types.{Progress, FinalReport, Event, reported}
use mysql_pitr.Executor.Run.{Outcome}
use mysql_pitr.Pitr.Events.{StreamEvent}
use mysql_pitr.Daemon.Execute.{Encoders}

-- What a history reported, oldest first.
abbrev pub reports_of : List Event → List Progress
reports_of [] = []
reports_of (reported p ∷ h) = reports_of h ++ p ∷ []
reports_of (_ ∷ h) = reports_of h

-- Every payload can be encoded.
pub record IsTotal (enc : Encoders) : Type 0 where
  pub progress : (p : Progress) → (t : Text) × (enc.marshal_progress p ≡ some t)
  pub report : (r : FinalReport) → (t : Text) × (enc.marshal_report r ≡ some t)
  pub error : (e : Text) → (t : Text) × (enc.marshal_error e ≡ some t)

module _ (enc : Encoders) (id : Text) where
  -- A success with the encoded report, or an error.
  abbrev pub Tells : {S : Type 0} → Outcome S → StreamEvent → Type 0
  Tells o ev =
      (ev.id ≡ id)
      × (((o.error ≡ none)
            × (ev.kind ≡ codes "op_done")
            × (enc.marshal_report o.report ≡ some ev.payload))
          ⊎ ((o.error ≢ none) × (ev.kind ≡ codes "op_error")))

  -- One progress event for each report, in order.
  abbrev pub Follows : List Progress → List StreamEvent → Type 0
  Follows [] [] = Unit
  Follows (p ∷ ps) (ev ∷ evs) =
      ((ev.id ≡ id) × (ev.kind ≡ codes "progress") × (enc.marshal_progress p ≡ some ev.payload))
      × Follows ps evs
  Follows _ _ = ⊥

  abbrev told : Text → Text → StreamEvent
  told kind t = record { id = id; kind = kind; payload = t }

-- The statements of a request that have a text, numbered from `i`.
abbrev pub requested : ℕ → List StatementWire → List (ℕ × Text)
requested i [] = []
requested i (st ∷ sts) =
    let rest = requested (suc i) sts in if is_empty st.sql then rest else (i, st.sql) ∷ rest
