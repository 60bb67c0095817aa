-- ===== src/Pitr/Requests/Frames.antt =====
-- The events that the stream of Events of internal/server/pitr/handler.go writes.
use mysql_pitr.Base.{ℕ, ◌≡◌, false, List, [], ◌∷◌, Option, none, some, inl, inr, Bool-cases}
use mysql_pitr.Base.Text.{Text}
use mysql_pitr.Pitr.Events.{StreamEvent}
use mysql_pitr.Pitr.Calls.{HandlerState, HandlerEnv, Answer, stop, next, after, ◌>>=◌, pure}
use mysql_pitr.Pitr.Requests.{Reply, Handler}
use mysql_pitr.Pitr.Requests.Sse.{
  Turn, receives, ticks, gone, is_terminal_kind, received, ended, sse_loop,
}

-- What is written ends with its first terminal event.
abbrev pub EndsOnTerminal : List StreamEvent → Type 0
EndsOnTerminal [] = Unit
EndsOnTerminal (ev ∷ []) = Unit
EndsOnTerminal (ev ∷ e ∷ evs) = (is_terminal_kind ev.kind ≡ false) × EndsOnTerminal (e ∷ evs)

EndsOnTerminal-cons :
    (ev : StreamEvent) (evs : List StreamEvent)
    → is_terminal_kind ev.kind ≡ false
    → EndsOnTerminal evs
    → EndsOnTerminal (ev ∷ evs)
EndsOnTerminal-cons ev [] h k = tt
EndsOnTerminal-cons ev (e ∷ evs) h k = (h, k)

module _ {G A : Type 0} where
  abbrev OnNext : (A → Type 0) → Answer (Reply G) A → Type 0
  OnNext P (stop r) = Unit
  OnNext P (next a) = P a

  -- What a program goes on with satisfies a predicate.
  unfoldable pub Yields : (A → Type 0) → Handler G A → Type 0
  Yields P m = (s : HandlerState G) → OnNext P (m s).0

module _ {G A B : Type 0} (Q : A → Type 0) (P : B → Type 0) where
  after-Yields :
      (k : A → Handler G B) (r : Answer (Reply G) A × HandlerState G)
      → OnNext Q r.0
      → ((a : A) → Q a → Yields P (k a))
      → OnNext P (after k r).0
  unfolding Yields
  after-Yields k (stop r, s) h hk = tt
  after-Yields k (next a, s) h hk = hk a h s

  bind-Yields :
      (m : Handler G A) (k : A → Handler G B)
      → Yields Q m
      → ((a : A) → Q a → Yields P (k a))
      → Yields P (m >>= k)
  unfolding Yields ◌>>=◌
  bind-Yields m k h hk s = after-Yields k (m s) (h s) hk

pure-Yields : (G : Type 0) {A : Type 0} (P : A → Type 0) (a : A) → P a → Yields {G = G} P (pure a)
unfolding Yields pure
pure-Yields G P a h s = h

module _ {G A : Type 0} where
  any-Yields : (m : Handler G A) → Yields (λ a. Unit) m
  unfolding Yields
  any-Yields m s = by_answer (m s).0
    where
      by_answer : (r : Answer (Reply G) A) → OnNext (λ a. Unit) r
      by_answer (stop r) = tt
      by_answer (next a) = tt

  after_any-Yields :
      {B : Type 0} (P : B → Type 0) (m : Handler G A) (k : A → Handler G B)
      → ((a : A) → Yields P (k a))
      → Yields P (m >>= k)
  after_any-Yields P m k h = bind-Yields (λ a. Unit) P m k (any-Yields m) (λ a u. h a)

module _ {G : Type 0} (env : HandlerEnv G) where
  received-Yields :
      (go : Handler G (List StreamEvent)) (ev : Option StreamEvent)
      → Yields EndsOnTerminal go
      → Yields EndsOnTerminal (received env go ev)
  received-Yields go none h = h
  received-Yields go (some ev) h = elim (Bool-cases (is_terminal_kind ev.kind)) [
    | inl e ↦ rw e (pure-Yields G EndsOnTerminal (ev ∷ []) tt)
    | inr e ↦ rw e (
        bind-Yields EndsOnTerminal EndsOnTerminal go _ h
          (λ evs q. pure-Yields G EndsOnTerminal (ev ∷ evs) (EndsOnTerminal-cons ev evs e q)))
  ]

  ended-Yields :
      (go : Handler G (List StreamEvent)) (ev : Option StreamEvent)
      → Yields EndsOnTerminal go
      → Yields EndsOnTerminal (ended env go ev)
  ended-Yields go none h = h
  ended-Yields go (some ev) h = pure-Yields G EndsOnTerminal (ev ∷ []) tt

  -- Whatever the turns of the loop, and whatever others do in the meantime: no event is written behind
  -- a terminal one.
  pub sse_loop-Yields :
      (id : Text) (c : ℕ) (ts : List Turn) → Yields EndsOnTerminal (sse_loop env id c ts)
  unfolding sse_loop
  sse_loop-Yields id c [] = pure-Yields G EndsOnTerminal [] tt
  sse_loop-Yields id c (receives ∷ ts) =
      let ih = sse_loop-Yields id c ts in
      after_any-Yields EndsOnTerminal _ _
        (λ u. after_any-Yields EndsOnTerminal _ _ (λ ev. received-Yields _ ev ih))
  sse_loop-Yields id c (ticks ∷ ts) =
      let ih = sse_loop-Yields id c ts in
      after_any-Yields EndsOnTerminal _ _ (λ u.
        after_any-Yields EndsOnTerminal _ _
          (λ r. after_any-Yields EndsOnTerminal _ _ (λ ev. ended-Yields _ ev ih)))
  sse_loop-Yields id c (gone ∷ ts) = pure-Yields G EndsOnTerminal [] tt
