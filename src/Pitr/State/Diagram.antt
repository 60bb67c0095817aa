-- ===== src/Pitr/State/Diagram.antt =====
-- The terminal states of internal/server/pitr/state.go against its transition table.
use mysql_pitr.Base.Text.{Text}
use mysql_pitr.Base.{◌≢◌, ◌≡◌, ◌↔◌, refl, true, false}
use mysql_pitr.Pitr.State.{
  OperationState, created, scanning, ready, executing, paused, done, failed, blocked, cancelled,
  other, transition_valid, is_terminal,
}

-- The terminal states are exactly the named states that no transition leaves.
pub is_terminal_iff :
    (s : OperationState)
    → ((t : Text) → s ≢ other t)
    → (is_terminal s ≡ true) ↔ ((t : OperationState) → transition_valid s t ≡ false)
unfolding is_terminal transition_valid
is_terminal_iff created h = (λ e. cc, λ k. cc (k scanning))
is_terminal_iff scanning h = (λ e. cc, λ k. cc (k ready))
is_terminal_iff ready h = (λ e. cc, λ k. cc (k executing))
is_terminal_iff executing h = (λ e. cc, λ k. cc (k paused))
is_terminal_iff paused h = (λ e. cc, λ k. cc (k executing))
is_terminal_iff done h = (λ e t. refl, λ k. refl)
is_terminal_iff failed h = (λ e t. refl, λ k. refl)
is_terminal_iff blocked h = (λ e t. refl, λ k. refl)
is_terminal_iff cancelled h = (λ e t. refl, λ k. refl)
is_terminal_iff (other t) h = absurd (h t refl)
