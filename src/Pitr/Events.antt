-- ===== src/Pitr/Events.antt =====
-- The event bus of internal/server/pitr/events.go. A channel is a number with a buffer; each call
-- runs under the bus's mutex. A sender never blocks, so a call is one step.
pub mod Delivery
pub mod Reached
use mysql_pitr.Base.{
  ℕ, suc, ◌==◌, if◌then◌else◌, Bool, true, false, List, [], ◌∷◌, ◌++◌, Option, none, some, length,
  ltb,
}
use mysql_pitr.Base.Text.{Text}
use mysql_pitr.Base.Dict.{lookup, insert, delete}

-- `ws.StreamEvent`; `payload` is its raw JSON `Data`.
pub record StreamEvent : Type 0 where
  pub id : Text
  pub kind : Text
  pub payload : Text

abbrev sub_buffer : ℕ
sub_buffer = 16

-- The subscriptions, what each channel holds, and the next channel to be made.
pub record EventBus : Type 0 where
  pub subs : List (Text × List ℕ)
  pub buffer : ℕ → List StreamEvent
  pub next : ℕ

abbrev pub new_event_bus : EventBus
new_event_bus = record { subs = []; buffer = λ c. []; next = 0 }

abbrev or_no_subs : Option (List ℕ) → List ℕ
or_no_subs none = []
or_no_subs (some cs) = cs

-- `b.subs[opID]`, nil where there is none.
unfoldable pub subs_of : Text → EventBus → List ℕ
subs_of op_id b = or_no_subs (lookup op_id b.subs)

-- The bus with another buffer for one channel.
abbrev pub set_buffer : ℕ → List StreamEvent → EventBus → EventBus
set_buffer c evs b = record b { buffer = λ d. if d == c then evs else b.buffer d }

unfoldable pub subscribe : Text → EventBus → ℕ × EventBus
subscribe op_id b = (
  b.next,
  record (set_buffer b.next [] b) {
    subs = insert op_id (subs_of op_id b ++ b.next ∷ []) b.subs;
    next = suc b.next;
  },
)

-- A send that drops the event when the buffer is full.
abbrev pub offered : StreamEvent → List StreamEvent → List StreamEvent
offered ev evs = if ltb (length evs) sub_buffer then evs ++ ev ∷ [] else evs

unfoldable pub send_all : List ℕ → StreamEvent → EventBus → EventBus
send_all [] ev b = b
send_all (c ∷ cs) ev b = send_all cs ev (set_buffer c (offered ev (b.buffer c)) b)

unfoldable pub publish : Text → StreamEvent → EventBus → EventBus
publish op_id ev b = send_all (subs_of op_id b) ev b

-- The list without the first place of a channel.
abbrev pub remove_first : ℕ → List ℕ → List ℕ
remove_first c [] = []
remove_first c (d ∷ ds) = let rest = remove_first c ds in if d == c then ds else d ∷ rest

-- The rest of the subscriptions; without any the operation's entry is deleted.
abbrev keep_subs : Text → List ℕ → List (Text × List ℕ) → List (Text × List ℕ)
keep_subs op_id [] subs = delete op_id subs
keep_subs op_id (c ∷ cs) subs = insert op_id (c ∷ cs) subs

unfoldable pub unsubscribe : Text → ℕ → EventBus → EventBus
unsubscribe op_id c b = record b {
  subs = keep_subs op_id (remove_first c (subs_of op_id b)) b.subs;
}
