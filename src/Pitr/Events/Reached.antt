-- ===== src/Pitr/Events/Reached.antt =====
-- The states that the bus of internal/server/pitr/events.go can be in.
use mysql_pitr.Base.{
  ℕ, suc, ◌==◌, ◌≡◌, ◌≤◌, ◌<◌, ◌⊎◌, refl, ap, ◌∙◌, inl, Bool, true, false, ◌||◌, List, [], ◌∷◌,
  ◌++◌, none, some, arith, if◌then◌else◌, ==_iff, length, length-append,
}
use mysql_pitr.Base.Text.{Text, text_eq}
use mysql_pitr.Base.Dict.{lookup, insert, lookup-insert, lookup-delete}
use mysql_pitr.Pitr.Events.{
  StreamEvent, EventBus, new_event_bus, subs_of, set_buffer, subscribe, offered, send_all, publish,
  remove_first, unsubscribe, or_no_subs, keep_subs,
}
use mysql_pitr.Pitr.Events.Delivery.{
  is_in, is_distinct, send_all-buffer, remove_first-is_in, remove_first-is_distinct,
}

pub record IsSound (b : EventBus) : Type 0 where
  -- No buffer holds more than its 16 places.
  pub bounded : (c : ℕ) → length (b.buffer c) ≤ 16
  -- No channel is subscribed twice to an operation.
  pub distinct : (op_id : Text) → is_distinct (subs_of op_id b) ≡ true
  -- Only channels that were made are subscribed.
  pub made : (op_id : Text) (c : ℕ) → (is_in c (subs_of op_id b) ≡ false) ⊎ (c < b.next)

is_in-append : (c d : ℕ) (cs : List ℕ) → is_in c (cs ++ d ∷ []) ≡ (is_in c cs || d == c)
is_in-append c d [] = ground arith
is_in-append c d (e ∷ cs) = ground (arith, is_in-append c d cs)

is_distinct-append :
    (d : ℕ) (cs : List ℕ)
    → is_distinct cs ≡ true
    → is_in d cs ≡ false
    → is_distinct (cs ++ d ∷ []) ≡ true
is_distinct-append d [] h k = refl
is_distinct-append d (e ∷ cs) h k =
    ground (arith, is_distinct-append d cs, is_in-append e d cs, ==_iff e d, ==_iff d e)

offered-bounded :
    (ev : StreamEvent) (evs : List StreamEvent) → length evs ≤ 16 → length (offered ev evs) ≤ 16
offered-bounded ev evs h = ground (arith, length-append evs (ev ∷ []))

-- The subscriptions of an operation behind `subscribe`.
subs_of-insert :
    (op_id other : Text) (cs : List ℕ) (b : EventBus)
    → or_no_subs (lookup other (insert op_id cs b.subs))
      ≡ (if text_eq op_id other then cs else subs_of other b)
unfolding subs_of
subs_of-insert op_id other cs b =
    ap or_no_subs (lookup-insert op_id other cs b.subs) ∙ by_test (text_eq op_id other)
  where
    by_test :
        (t : Bool)
        → or_no_subs (if t then some cs else lookup other b.subs)
          ≡ (if t then cs else or_no_subs (lookup other b.subs))
    by_test true = refl
    by_test false = refl

not_made : (b : EventBus) (op_id : Text) → IsSound b → is_in b.next (subs_of op_id b) ≡ false
not_made b op_id v = ground (arith, v.made op_id b.next)

subscribe-IsSound : (op_id : Text) (b : EventBus) → IsSound b → IsSound (subscribe op_id b).1
unfolding subscribe subs_of
subscribe-IsSound op_id b v = record {
  bounded = λ c. bounded_of c (c == b.next);
  distinct =
      λ other. rw (subs_of-insert op_id other more b) (distinct_of other (text_eq op_id other));
  made = λ other c. rw (subs_of-insert op_id other more b) (made_of other c (text_eq op_id other));
}
  where
    more : List ℕ
    more = subs_of op_id b ++ b.next ∷ []

    bounded_of : (c : ℕ) (t : Bool) → length (if t then [] else b.buffer c) ≤ 16
    bounded_of c true = omega arith
    bounded_of c false = v.bounded c

    distinct_of :
        (other : Text) (t : Bool) → is_distinct (if t then more else subs_of other b) ≡ true
    distinct_of other true =
        is_distinct-append b.next (subs_of op_id b) (v.distinct op_id) (not_made b op_id v)
    distinct_of other false = v.distinct other

    made_of :
        (other : Text) (c : ℕ) (t : Bool)
        → (is_in c (if t then more else subs_of other b) ≡ false) ⊎ (c < suc b.next)
    made_of other c true =
        ground (arith, v.made op_id c, is_in-append c b.next (subs_of op_id b), ==_iff b.next c)
    made_of other c false = ground (arith, v.made other c)

send_all-subs : (cs : List ℕ) (ev : StreamEvent) (b : EventBus) → (send_all cs ev b).subs ≡ b.subs
unfolding send_all
send_all-subs [] ev b = refl
send_all-subs (c ∷ cs) ev b = send_all-subs cs ev (set_buffer c (offered ev (b.buffer c)) b)

send_all-next : (cs : List ℕ) (ev : StreamEvent) (b : EventBus) → (send_all cs ev b).next ≡ b.next
unfolding send_all
send_all-next [] ev b = refl
send_all-next (c ∷ cs) ev b = send_all-next cs ev (set_buffer c (offered ev (b.buffer c)) b)

publish-IsSound :
    (op_id : Text) (ev : StreamEvent) (b : EventBus) → IsSound b → IsSound (publish op_id ev b)
unfolding publish subs_of
publish-IsSound op_id ev b v =
    let cs = subs_of op_id b in
    record {
      bounded = λ c. rw (send_all-buffer cs ev b c (v.distinct op_id)) (bounded_of c (is_in c cs));
      distinct = λ other. rw (send_all-subs cs ev b) (v.distinct other);
      made = λ other c. rw (send_all-subs cs ev b, send_all-next cs ev b) (v.made other c);
    }
  where
    bounded_of :
        (c : ℕ) (t : Bool) → length (if t then offered ev (b.buffer c) else b.buffer c) ≤ 16
    bounded_of c true = offered-bounded ev (b.buffer c) (v.bounded c)
    bounded_of c false = v.bounded c

subs_of-keep_subs :
    (op_id other : Text) (cs : List ℕ) (b : EventBus)
    → or_no_subs (lookup other (keep_subs op_id cs b.subs))
      ≡ (if text_eq op_id other then cs else subs_of other b)
unfolding subs_of
subs_of-keep_subs op_id other [] b =
    ap or_no_subs (lookup-delete op_id other b.subs) ∙ by_test (text_eq op_id other)
  where
    by_test :
        (t : Bool)
        → or_no_subs (if t then none else lookup other b.subs)
          ≡ (if t then [] else or_no_subs (lookup other b.subs))
    by_test true = refl
    by_test false = refl
subs_of-keep_subs op_id other (c ∷ cs) b = subs_of-insert op_id other (c ∷ cs) b

unsubscribe-IsSound :
    (op_id : Text) (c : ℕ) (b : EventBus) → IsSound b → IsSound (unsubscribe op_id c b)
unfolding unsubscribe subs_of
unsubscribe-IsSound op_id c b v = record {
  bounded = v.bounded;
  distinct =
      λ other. rw (subs_of-keep_subs op_id other rest b) (distinct_of other (text_eq op_id other));
  made =
      λ other d. rw (subs_of-keep_subs op_id other rest b) (made_of other d (text_eq op_id other));
}
  where
    rest : List ℕ
    rest = remove_first c (subs_of op_id b)

    distinct_of :
        (other : Text) (t : Bool) → is_distinct (if t then rest else subs_of other b) ≡ true
    distinct_of other true = remove_first-is_distinct c (subs_of op_id b) (v.distinct op_id)
    distinct_of other false = v.distinct other

    made_of :
        (other : Text) (d : ℕ) (t : Bool)
        → (is_in d (if t then rest else subs_of other b) ≡ false) ⊎ (d < b.next)
    made_of other d true =
        ground (arith, v.made op_id d, remove_first-is_in c d (subs_of op_id b) (v.distinct op_id))
    made_of other d false = v.made other d

-- The calls of the bus, and a receive by the consumer of a channel.
pub data BusCall : Type 0 where
  subscribed : Text → BusCall
  published : Text → StreamEvent → BusCall
  unsubscribed : Text → ℕ → BusCall
  received : ℕ → BusCall

abbrev rest_of : List StreamEvent → List StreamEvent
rest_of [] = []
rest_of (ev ∷ evs) = evs

abbrev pub bus_call : BusCall → EventBus → EventBus
bus_call (subscribed op_id) b = (subscribe op_id b).1
bus_call (published op_id ev) b = publish op_id ev b
bus_call (unsubscribed op_id c) b = unsubscribe op_id c b
bus_call (received c) b = set_buffer c (rest_of (b.buffer c)) b

abbrev pub bus_calls : List BusCall → EventBus → EventBus
bus_calls [] b = b
bus_calls (k ∷ ks) b = bus_calls ks (bus_call k b)

rest_of-bounded : (evs : List StreamEvent) → length evs ≤ 16 → length (rest_of evs) ≤ 16
rest_of-bounded [] h = h
rest_of-bounded (ev ∷ evs) h = omega arith

bus_call-IsSound : (k : BusCall) (b : EventBus) → IsSound b → IsSound (bus_call k b)
unfolding subs_of
bus_call-IsSound (subscribed op_id) b v = subscribe-IsSound op_id b v
bus_call-IsSound (published op_id ev) b v = publish-IsSound op_id ev b v
bus_call-IsSound (unsubscribed op_id c) b v = unsubscribe-IsSound op_id c b v
bus_call-IsSound (received c) b v = record {
  bounded = λ d. bounded_of d (d == c);
  distinct = v.distinct;
  made = v.made;
}
  where
    bounded_of : (d : ℕ) (t : Bool) → length (if t then rest_of (b.buffer c) else b.buffer d) ≤ 16
    bounded_of d true = rest_of-bounded (b.buffer c) (v.bounded c)
    bounded_of d false = v.bounded d

bus_calls-IsSound_from : (ks : List BusCall) (b : EventBus) → IsSound b → IsSound (bus_calls ks b)
bus_calls-IsSound_from [] b v = v
bus_calls-IsSound_from (k ∷ ks) b v =
    bus_calls-IsSound_from ks (bus_call k b) (bus_call-IsSound k b v)

-- In every state that a new bus reaches, no buffer holds more than 16 events, no channel is
-- subscribed twice to an operation, and only channels that the bus made are subscribed.
pub bus_calls-IsSound : (ks : List BusCall) → IsSound (bus_calls ks new_event_bus)
unfolding subs_of lookup
bus_calls-IsSound ks =
    bus_calls-IsSound_from ks new_event_bus
      (record { bounded = λ c. omega arith; distinct = λ op_id. refl; made = λ op_id c. inl refl })
