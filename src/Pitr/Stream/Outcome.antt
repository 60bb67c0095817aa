-- ===== src/Pitr/Stream/Outcome.antt =====
-- What the reports of a finished execution come to: op_done and op_error in HandleStreamEvent of
-- internal/server/pitr/handler.go.
use mysql_pitr.Base.{
  ◌&&◌, List, [], ◌∷◌, ◌++◌, ltb, length, ℕ, suc, ◌==◌, ◌≡◌, refl, sym, ◌∙◌, ap, inl, inr,
  if◌then◌else◌, true, false, none, any, Option-cases,
}
use mysql_pitr.Base.Text.{Text, text_eq}
use mysql_pitr.Base.Int.{ℤ}
use mysql_pitr.Base.Result.{ok}
use mysql_pitr.Binlog.Types.{Time}
use mysql_pitr.Pitr.State.{
  OperationState, executing, done, state_eq, transition_valid, try_transition_err-none,
}
use mysql_pitr.Pitr.Preview.{forget_preview}
use mysql_pitr.Pitr.Operations.{
  Operation, Server, Answers, is_row, set_rows, update_if_status, settled, transition_to,
  append_audit,
}
use mysql_pitr.Pitr.Operations.Moves.{append_audit-operations}
use mysql_pitr.Pitr.Events.{StreamEvent, subs_of}
use mysql_pitr.Pitr.Events.Delivery.{is_in, is_distinct, publish-buffer}
use mysql_pitr.Pitr.Operations.Rows.{SwappedRows, set_rows-SwappedRows}
use mysql_pitr.Base.Dict.{lookup, lookup-delete}
use mathlib.Core.Path.{subst}
use mysql_pitr.Pitr.Calls.{
  OpDone, HandlerState, HandlerEnv, ◌>>=◌, pure, with_server, with_bus, transition,
}
use mysql_pitr.Pitr.Stream.{
  error_summary, fallback, finish, completed, op_done, handle_kind, ev_op_done,
}

abbrev new_time : Answers → ℕ → Time
new_time env n = if env.now n == 0 then env.now n else env.now n

module _ {G : Type 0} (env : Answers) where
  settled_wins :
      (op op' : Operation G) (s : Server G)
      → env.update_err s.calls ≡ none
      → any (is_row op'.id op.status) s.operations ≡ true
      → settled env op' op.status (update_if_status env op' op.status s) ≡ (
        op',
        ok true,
        record s {
          operations =
              set_rows op'.id op.status op'.status
                (if op'.updated_at == 0 then env.now s.calls else op'.updated_at)
                s.operations;
          calls = suc s.calls;
        },
      )
  unfolding update_if_status
  settled_wins op op' s e b = rw (e, update_if_status) (rw b refl)

  transition_to_wins :
      (op : Operation G) (to : OperationState) (s : Server G)
      → transition_valid op.status to ≡ true
      → env.update_err s.calls ≡ none
      → any (is_row op.id op.status) s.operations ≡ true
      → transition_to env op to s ≡ (
        record op { status = to; updated_at = env.now s.calls },
        ok true,
        record s {
          operations = set_rows op.id op.status to (new_time env s.calls) s.operations;
          calls = suc s.calls;
        },
      )
  unfolding transition_to
  transition_to_wins op to s h e b =
      rw ((try_transition_err-none op.status to).1 h, transition_to)
        (settled_wins op (record op { status = to; updated_at = env.now s.calls }) s e b)

  append_audit-previews :
      (op : Operation G) (st : OperationState) (operator details : Text) (n : ℤ) (s : Server G)
      → (append_audit env op st operator details n s).previews ≡ s.previews
  unfolding append_audit
  append_audit-previews op st operator details n s = elim (Option-cases (env.audit_err s.calls)) [
    | inl e ↦ rw (e, append_audit) refl
    | inr (x, e) ↦ rw (e, append_audit) refl
  ]

-- A channel that holds fewer than 16 events takes one more.
abbrev pub queued : StreamEvent → List StreamEvent → List StreamEvent
queued ev evs = if ltb (length evs) 16 then evs ++ ev ∷ [] else evs

module _ {G : Type 0} (env : HandlerEnv G) where
  -- The operation's row has its last state and every other row is as it was; at any operation `j`:
  -- its preview is gone if it is this one, and otherwise as it was; at any channel `c`: it was offered
  -- the event if it is subscribed to the operation, and otherwise holds what it held.
  abbrev pub Finished :
      Operation G
      → OperationState
      → StreamEvent
      → Text
      → ℕ
      → HandlerState G
      → HandlerState G
      → Type 0
  Finished op to ev j c s s' =
      ((ts : Time) × SwappedRows op.id op.status to ts s.server.operations s'.server.operations)
      × (lookup j s'.server.previews
          ≡ (if text_eq ev.id j then none else lookup j s.server.previews))
      × (s'.bus.buffer c
          ≡ (if is_in c (subs_of ev.id s.bus) then queued ev (s.bus.buffer c) else s.bus.buffer c))

  finish-Finished :
      (op : Operation G) (to : OperationState) (details : Text) (rows : ℤ) (ev : StreamEvent)
      (j : Text) (c : ℕ) (s : HandlerState G)
      → is_distinct (subs_of ev.id s.bus) ≡ true
      → transition_valid op.status to ≡ true
      → env.answers.update_err s.server.calls ≡ none
      → any (is_row op.id op.status) s.server.operations ≡ true
      → Finished op to ev j c s (finish env op to details rows ev s).1
  unfolding ◌>>=◌ pure transition with_server with_bus
  finish-Finished op to details rows ev j c s d h e b =
      rw (transition_to_wins env.answers op to s.server h e b) (
        (
          new_time env.answers s.server.calls,
          subst (SwappedRows op.id op.status to _ s.server.operations)
              (sym (append_audit-operations env.answers _ to _ details rows _))
              (set_rows-SwappedRows op.id op.status to _ s.server.operations),
        ),
        ap (λ ps. lookup j (forget_preview ev.id ps))
              (append_audit-previews env.answers _ to _ details rows _)
            ∙ lookup-delete ev.id j s.server.previews,
        (publish-buffer ev.id ev s.bus c c d).0,
      )

  fallback-executing :
      (op : Operation G) → op.status ≡ executing → fallback env op executing ≡ pure op
  unfolding fallback state_eq
  fallback-executing op e = rw e refl

  completed-Finished :
      (op : Operation G) (ev : StreamEvent) (report : OpDone) (j : Text) (c : ℕ)
      (s : HandlerState G)
      → is_distinct (subs_of ev.id s.bus) ≡ true
      → op.status ≡ executing
      → env.answers.update_err s.server.calls ≡ none
      → any (is_row op.id op.status) s.server.operations ≡ true
      → Finished op done ev j c s (completed env op ev report s).1
  unfolding ◌>>=◌ pure transition_valid
  completed-Finished op ev report j c s d q e b = rw (fallback-executing op q) (
      finish-Finished op done (error_summary report.errors) report.rows_affected ev j c s d
        (rw q refl) e b)

  -- A report that an execution is over, that is no report of a pause, ends it if the operation that
  -- was read is executing, its row still is, the update does not fail, and no channel is subscribed
  -- twice: exactly the operation's row becomes `done`, exactly its preview is gone, and the event is
  -- offered to its subscribers and to no other channel.
  pub op_done-Finished :
      (op : Operation G) (ev : StreamEvent) (j : Text) (c : ℕ) (s : HandlerState G)
      → is_distinct (subs_of ev.id s.bus) ≡ true
      → ((env.json.op_done ev.payload).0 && (env.json.op_done ev.payload).1.paused) ≡ false
      → op.status ≡ executing
      → env.answers.update_err s.server.calls ≡ none
      → any (is_row op.id op.status) s.server.operations ≡ true
      → Finished op done ev j c s (handle_kind env ev_op_done op ev s).1
  unfolding handle_kind op_done
  op_done-Finished op ev j c s d p q e b =
      let report = (env.json.op_done ev.payload).1 in
      rw (p, op_done) (completed-Finished op ev report j c s d q e b)
