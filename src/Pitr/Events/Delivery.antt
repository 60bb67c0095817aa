-- ===== src/Pitr/Events/Delivery.antt =====
-- What internal/server/pitr/events.go delivers.
use mysql_pitr.Base.{
  ℕ, ◌==◌, ◌≡◌, refl, sym, ap, ◌∙◌, inl, inr, Bool, true, false, not, ◌&&◌, ◌||◌, List, [], ◌∷◌,
  any, arith, Bool-cases, if◌then◌else◌, ==_iff,
}
use mysql_pitr.Base.Text.{Text}
use mysql_pitr.Base.Dict.{lookup, lookup-insert_self, lookup-delete_self}
use mysql_pitr.Pitr.Events.{
  StreamEvent, EventBus, subs_of, set_buffer, offered, send_all, publish, remove_first, unsubscribe,
  or_no_subs, keep_subs,
}

abbrev pub is_in : ℕ → List ℕ → Bool
is_in c = any (λ d. d == c)

-- No channel is listed twice.
abbrev pub is_distinct : List ℕ → Bool
is_distinct [] = true
is_distinct (c ∷ cs) = not (is_in c cs) && is_distinct cs

-- One send.
send-buffer :
    (d : ℕ) (cs : List ℕ) (ev : StreamEvent) (b : EventBus) (c : ℕ)
    → is_in d cs ≡ false
    → (if is_in c cs
        then offered ev ((set_buffer d (offered ev (b.buffer d)) b).buffer c)
        else (set_buffer d (offered ev (b.buffer d)) b).buffer c)
      ≡ (if d == c || is_in c cs then offered ev (b.buffer c) else b.buffer c)
send-buffer d cs ev b c h = elim (Bool-cases (d == c)) [
  | inl e ↦
      let q : d ≡ c = (==_iff d c).0 e in
      let back : (c == d) ≡ true = (==_iff c d).1 (sym q) in
      let out : is_in c cs ≡ false = ap (λ x. is_in x cs) (sym q) ∙ h in
      rw e (rw out (rw back (ap (λ x. offered ev (b.buffer x)) q)))
  | inr e ↦
      let back : (c == d) ≡ false = ground (arith, e, ==_iff c d, ==_iff d c) in rw e (rw back refl)
]

pub send_all-buffer :
    (cs : List ℕ) (ev : StreamEvent) (b : EventBus) (c : ℕ)
    → is_distinct cs ≡ true
    → (send_all cs ev b).buffer c ≡ (if is_in c cs then offered ev (b.buffer c) else b.buffer c)
unfolding send_all
send_all-buffer [] ev b c h = refl
send_all-buffer (d ∷ cs) ev b c h =
    send_all-buffer cs ev (set_buffer d (offered ev (b.buffer d)) b) c (ground (arith, h))
    ∙ send-buffer d cs ev b c (ground (arith, h))

pub remove_first-is_in :
    (c d : ℕ) (cs : List ℕ)
    → is_distinct cs ≡ true
    → is_in d (remove_first c cs) ≡ (not (d == c) && is_in d cs)
remove_first-is_in c d [] h = ground arith
remove_first-is_in c d (e ∷ cs) h =
    ground (arith, remove_first-is_in c d cs, ==_iff e c, ==_iff d c, ==_iff e d)

pub subs_of-unsubscribe :
    (op_id : Text) (c : ℕ) (b : EventBus)
    → subs_of op_id (unsubscribe op_id c b) ≡ remove_first c (subs_of op_id b)
unfolding subs_of unsubscribe
subs_of-unsubscribe op_id c b = by_rest (remove_first c (or_no_subs (lookup op_id b.subs)))
  where
    by_rest : (cs : List ℕ) → or_no_subs (lookup op_id (keep_subs op_id cs b.subs)) ≡ cs
    by_rest [] = ap or_no_subs (lookup-delete_self op_id b.subs)
    by_rest (d ∷ ds) = ap or_no_subs (lookup-insert_self op_id (d ∷ ds) b.subs)

pub remove_first-is_distinct :
    (c : ℕ) (cs : List ℕ) → is_distinct cs ≡ true → is_distinct (remove_first c cs) ≡ true
remove_first-is_distinct c [] h = refl
remove_first-is_distinct c (e ∷ cs) h =
    ground (arith, remove_first-is_distinct c cs, remove_first-is_in c e cs, ==_iff e c)

-- A publication offers the event, once, to each subscriber of the operation and to no other
-- channel, if no channel is subscribed twice to the operation. Behind an `Unsubscribe` it sends
-- nothing to the channel that was removed, and to all others what it sent before.
pub publish-buffer :
    (op_id : Text) (ev : StreamEvent) (b : EventBus) (c d : ℕ)
    → is_distinct (subs_of op_id b) ≡ true
    → ((publish op_id ev b).buffer d
        ≡ (if is_in d (subs_of op_id b) then offered ev (b.buffer d) else b.buffer d))
      × ((publish op_id ev (unsubscribe op_id c b)).buffer d ≡ (
          if not (d == c) && is_in d (subs_of op_id b)
          then offered ev (b.buffer d)
          else b.buffer d))
unfolding publish
publish-buffer op_id ev b c d h =
    let subs = subs_of op_id b in
    let b' = unsubscribe op_id c b in
    (
      send_all-buffer subs ev b d h,
      ap (λ cs. (send_all cs ev b').buffer d) (subs_of-unsubscribe op_id c b)
          ∙ send_all-buffer (remove_first c subs) ev b' d (remove_first-is_distinct c subs h)
          ∙ kept
          ∙ ap (λ x. if x then offered ev (b.buffer d) else b.buffer d)
              (remove_first-is_in c d subs h),
    )
  where
    kept :
        (if is_in d (remove_first c (subs_of op_id b))
          then offered ev ((unsubscribe op_id c b).buffer d)
          else (unsubscribe op_id c b).buffer d)
        ≡ (if is_in d (remove_first c (subs_of op_id b))
            then offered ev (b.buffer d)
            else b.buffer d)
    kept = unfold unsubscribe in refl
