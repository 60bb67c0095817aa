-- ===== src/Pitr/State/Traces.antt =====
-- Runs of the state machine of internal/server/pitr/state.go.
use mysql_pitr.Base.{◌≡◌, refl, Bool, true, false, ◌&&◌, List, [], ◌∷◌, arith, any}
use mysql_pitr.Pitr.State.{
  OperationState, created, scanning, ready, executing, paused, done, failed, blocked, state_eq,
  transition_valid, is_terminal,
}

-- The states that an operation takes one after another, each by an admitted transition.
abbrev pub is_run : OperationState → List OperationState → Bool
is_run s [] = true
is_run s (t ∷ ts) = transition_valid s t && is_run t ts

abbrev pub visits : OperationState → List OperationState → Bool
visits x = any (state_eq x)

-- States from which `done` is reached through `executing` only.
abbrev is_before_execution : OperationState → Bool
is_before_execution executing = false
is_before_execution _ = true

done-executing :
    (s : OperationState) (ts : List OperationState)
    → is_before_execution s ≡ true
    → is_run s ts ≡ true
    → visits done ts ≡ true
    → visits executing ts ≡ true
unfolding transition_valid
done-executing s [] b r v = v
done-executing s (t ∷ ts) b r v = ground (arith, done-executing t ts)

abbrev is_before_ready : OperationState → Bool
is_before_ready ready = false
is_before_ready executing = false
is_before_ready paused = false
is_before_ready _ = true

executing-ready :
    (s : OperationState) (ts : List OperationState)
    → is_before_ready s ≡ true
    → is_run s ts ≡ true
    → visits executing ts ≡ true
    → visits ready ts ≡ true
unfolding transition_valid
executing-ready s [] b r v = v
executing-ready s (t ∷ ts) b r v = ground (arith, executing-ready t ts)

ready-scanning :
    (ts : List OperationState)
    → is_run created ts ≡ true
    → visits ready ts ≡ true
    → visits scanning ts ≡ true
unfolding transition_valid
ready-scanning [] r v = v
ready-scanning (scanning ∷ ts) r v = refl
ready-scanning (blocked ∷ []) r v = v
ready-scanning (failed ∷ []) r v = v
ready-scanning (t ∷ u ∷ ts) r v = ground arith
ready-scanning (t ∷ []) r v = ground arith

-- An operation that is done has been scanned, made ready and executed before.
pub done_needs_all_phases :
    (ts : List OperationState)
    → is_run created ts ≡ true
    → visits done ts ≡ true
    → (visits scanning ts ≡ true) × (visits ready ts ≡ true) × (visits executing ts ≡ true)
done_needs_all_phases ts r v =
    let e = done-executing created ts refl r v in
    let d = executing-ready created ts refl r e in (ready-scanning ts r d, d, e)

-- Nothing follows a terminal state.
pub terminal_ends :
    (s : OperationState) (ts : List OperationState)
    → is_terminal s ≡ true
    → is_run s ts ≡ true
    → ts ≡ []
unfolding is_terminal transition_valid
terminal_ends s [] h r = refl
terminal_ends s (t ∷ ts) h r = ground arith
