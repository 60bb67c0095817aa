-- ===== src/Pitr/Requests/Sse.antt =====
-- The stream of server-sent events of one operation: Events, writeSSEFrame, isTerminalKind and
-- syntheticTerminalEvent of internal/server/pitr/handler.go. The loop's `select` is a sequence of turns.
use mysql_pitr.Base.{ℕ, if◌then◌else◌, Bool, ◌||◌, List, [], ◌∷◌, ◌++◌, Option, none, some, map}
use mysql_pitr.Base.Text.{Text, codes, is_empty, text_eq}
use mysql_pitr.Base.Int.{ℤ}
use mysql_pitr.Base.Result.{Result, ok, err}
use mysql_pitr.Pitr.State.{OperationState, failed, blocked, is_terminal}
use mysql_pitr.Pitr.Operations.{Operation}
use mysql_pitr.Pitr.Store.{ServerCheckpoint, get, load_checkpoint}
use mysql_pitr.Pitr.Events.{EventBus, StreamEvent, subscribe, unsubscribe, set_buffer}
use mysql_pitr.Pitr.Calls.{HandlerEnv, ◌>>=◌, pure, end_with, with_bus, on_bus, on_db, meanwhile}
use mysql_pitr.Pitr.Requests.{Request, streamed, Handler, authorize_op}

-- One turn of the loop: the channel is ready, the ticker ticks, or the client is gone.
pub data Turn : Type 0 where
  receives ticks gone : Turn

unfoldable pub write_sse_frame : StreamEvent → Text
write_sse_frame ev =
    codes "event: "
    ++ (ev.kind
        ++ (b'\n'
            ∷ (codes "data: "
                ++ ((if is_empty ev.payload then codes "{}" else ev.payload)
                    ++ b'\n' ∷ b'\n' ∷ []))))

unfoldable pub is_terminal_kind : Text → Bool
is_terminal_kind kind = text_eq kind (codes "op_done") || text_eq kind (codes "op_error")

abbrev terminal_kind : OperationState → Text
terminal_kind failed = codes "op_error"
terminal_kind blocked = codes "op_error"
terminal_kind _ = codes "op_done"

abbrev pub counts_of : Result (Option ServerCheckpoint) → Option (ℤ × ℤ)
counts_of (ok (some c)) = some (c.last_stmt, c.total)
counts_of _ = none

-- The first event of a channel; `none` where the channel is empty.
abbrev pub take_event : ℕ → EventBus → Option StreamEvent × EventBus
take_event c b = elim (b.buffer c) [ [] ↦ (none, b) | ev ∷ evs ↦ (some ev, set_buffer c evs b) ]

module _ {G : Type 0} (env : HandlerEnv G) where
  unfoldable pub synthetic_terminal_event : Operation G → Handler G StreamEvent
  synthetic_terminal_event op = on_db (load_checkpoint env.sql op.id) >>= (λ r. pure (record {
    id = op.id;
    kind = terminal_kind op.status;
    payload = env.json.terminal_text op.status (counts_of r);
  }))

  -- What the ticker's read leads to: the last event, or none.
  abbrev pub polled : Result (Operation G) → Handler G (Option StreamEvent)
  polled (err e) = pure none
  polled (ok cur) =
      if is_terminal cur.status
      then synthetic_terminal_event cur >>= (λ ev. pure (some ev))
      else pure none

  -- Behind an event of the channel the loop goes on unless the event is terminal.
  abbrev pub received :
      Handler G (List StreamEvent) → Option StreamEvent → Handler G (List StreamEvent)
  received go none = go
  received go (some ev) =
      if is_terminal_kind ev.kind then pure (ev ∷ []) else go >>= (λ evs. pure (ev ∷ evs))

  abbrev pub ended :
      Handler G (List StreamEvent) → Option StreamEvent → Handler G (List StreamEvent)
  ended go none = go
  ended go (some ev) = pure (ev ∷ [])

  -- The events that are written.
  unfoldable pub sse_loop : Text → ℕ → List Turn → Handler G (List StreamEvent)
  sse_loop id c [] = pure []
  sse_loop id c (receives ∷ ts) =
      let go = sse_loop id c ts in
      meanwhile env >>= (λ _. on_bus (take_event c) >>= (λ ev. received go ev))
  sse_loop id c (ticks ∷ ts) =
      let go = sse_loop id c ts in
      meanwhile env >>= (λ _. on_db (get env.sql id) >>= (λ r. polled r >>= (λ ev. ended go ev)))
  sse_loop id c (gone ∷ ts) = pure []

  unfoldable pub events : Request → List Turn → Handler G Unit
  events req ts = authorize_op env req >>= (λ op.
      if is_terminal op.status
      then synthetic_terminal_event op >>= (λ ev. end_with (streamed (write_sse_frame ev ∷ [])))
      else on_bus (subscribe op.id) >>= (λ c. sse_loop op.id c ts >>= (λ evs.
        with_bus (unsubscribe op.id c) >>= (λ _. end_with (streamed (map write_sse_frame evs))))))
