-- ===== src/Pitr/State.antt =====
-- The operation state machine: internal/server/pitr/state.go.
pub mod Diagram
pub mod Traces
use mysql_pitr.Base.{
  ◌≡◌, ◌↔◌, Bool, true, false, Option, none, some, List, [], ◌∷◌, ◌++◌, arith, any, if◌then◌else◌,
}
use mysql_pitr.Base.Text.{Text, codes, text_eq, text_eq_iff}

-- The nine named states; `other` is a stored text that is none of them.
pub data OperationState : Type 0 where
  created scanning ready executing paused done failed blocked cancelled : OperationState
  other : Text → OperationState

-- `==` on two state texts.
unfoldable pub state_eq : OperationState → OperationState → Bool
state_eq created created = true
state_eq scanning scanning = true
state_eq ready ready = true
state_eq executing executing = true
state_eq paused paused = true
state_eq done done = true
state_eq failed failed = true
state_eq blocked blocked = true
state_eq cancelled cancelled = true
state_eq (other s) (other t) = text_eq s t
state_eq _ _ = false

abbrev pub state_text : OperationState → Text
state_text created = codes "created"
state_text scanning = codes "scanning"
state_text ready = codes "ready"
state_text executing = codes "executing"
state_text paused = codes "paused"
state_text done = codes "done"
state_text failed = codes "failed"
state_text blocked = codes "blocked"
state_text cancelled = codes "cancelled"
state_text (other s) = s

-- The table; `none` is a key that the map does not have.
abbrev pub valid_transitions : OperationState → Option (List OperationState)
valid_transitions created = some (scanning ∷ blocked ∷ failed ∷ [])
valid_transitions scanning = some (ready ∷ failed ∷ cancelled ∷ blocked ∷ [])
valid_transitions ready = some (executing ∷ cancelled ∷ scanning ∷ [])
valid_transitions executing = some (paused ∷ done ∷ failed ∷ blocked ∷ [])
valid_transitions paused = some (executing ∷ cancelled ∷ [])
valid_transitions _ = none

unfoldable pub transition_valid : OperationState → OperationState → Bool
unfolding state_eq
transition_valid from to = elim (valid_transitions from) [
  | none ↦ false
  | some allowed ↦ any (λ s. state_eq s to) allowed
]

unfoldable pub is_terminal : OperationState → Bool
is_terminal done = true
is_terminal failed = true
is_terminal cancelled = true
is_terminal blocked = true
is_terminal _ = false

-- `none` is a nil error.
unfoldable pub try_transition_err : OperationState → OperationState → Option Text
try_transition_err from to =
    if transition_valid from to
    then none
    else some
        (codes "invalid state transition: " ++ (state_text from ++ (codes " -> " ++ state_text to)))

pub state_eq_iff : (s t : OperationState) → (state_eq s t ≡ true) ↔ (s ≡ t)
unfolding state_eq
state_eq_iff (other s) (other t) = ground (arith, text_eq_iff s t)
state_eq_iff s t = ground arith

pub try_transition_err-none :
    (s t : OperationState) → (try_transition_err s t ≡ none) ↔ (transition_valid s t ≡ true)
unfolding try_transition_err
try_transition_err-none s t = ground arith
