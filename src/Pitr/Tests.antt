-- ===== src/Pitr/Tests.antt =====
-- Operations of internal/server/pitr at concrete states.
use mysql_pitr.Base.{
  ℕ, ◌≡◌, ◌≢◌, ◌↔◌, refl, true, false, List, [], ◌∷◌, none, ◌||◌, ◌⊎◌, not, ◌&&◌, ◌==◌,
  if◌then◌else◌,
}
use mysql_pitr.Base.Text.{Text, codes}
use mysql_pitr.Base.Int.{pos}
use mysql_pitr.Binlog.Types.{Filter, Time}
use mysql_pitr.Pitr.State.{
  OperationState, created, scanning, ready, executing, done, other, transition_valid, is_terminal,
  state_eq,
}
use mysql_pitr.Pitr.State.Diagram.{is_terminal_iff}
use mysql_pitr.Pitr.State.Traces.{is_run, visits, done_needs_all_phases}
use mysql_pitr.Pitr.Preview.{TxMetaWire, StatementWire, new_preview}
use mysql_pitr.Pitr.Preview.Invariant.{IsValid, Staging, tx_meta, sql, staged_all, preview-IsValid}
use mysql_pitr.Pitr.Operations.{
  Operation, OpStatement, Server, Answers, transition_to, reconcile_on_startup,
}
use mysql_pitr.Pitr.Events.{
  StreamEvent, EventBus, new_event_bus, subs_of, publish, unsubscribe, offered,
}
use mysql_pitr.Pitr.Events.Delivery.{is_in, is_distinct, publish-buffer}
use mysql_pitr.Pitr.Events.Reached.{
  IsSound, BusCall, subscribed, published, unsubscribed, bus_calls, bus_calls-IsSound,
}
use mysql_pitr.Pitr.Store.{Db, Sql, save_statements, save_statements_and_select}
use mysql_pitr.Pitr.Store.Atomic.{
  Replaced, IsStored, SelectedRows, save_statements-Replaced, save_statements_and_select-Replaced,
}
use mysql_pitr.Pitr.Operations.Moves.{Moved}
use mysql_pitr.Pitr.Operations.Actions.{
  Action, move, fail, disconnect, reconcile, acts, acts-Moved, Swapped, transition_to-Swapped,
}
use mysql_pitr.Pitr.Operations.Reconcile.{
  NoErrors, states, blocked_where, reconcile_on_startup-states,
}

abbrev whole_run : List OperationState
whole_run = scanning ∷ ready ∷ executing ∷ done ∷ []

whole_run-is_run : is_run created whole_run ≡ true
unfolding transition_valid state_eq
whole_run-is_run = refl

whole_run-visits : visits done whole_run ≡ true
unfolding state_eq
whole_run-visits = refl

done_not_other : (t : Text) → done ≢ other t
done_not_other t e = cc

is_terminal_iff_example :
    (is_terminal done ≡ true) ↔ ((t : OperationState) → transition_valid done t ≡ false)
is_terminal_iff_example = is_terminal_iff done done_not_other

done_needs_all_phases_example :
    (visits scanning whole_run ≡ true)
    × (visits ready whole_run ≡ true)
    × (visits executing whole_run ≡ true)
done_needs_all_phases_example = done_needs_all_phases whole_run whole_run-is_run whole_run-visits

abbrev pub meta : Text → TxMetaWire
meta id = record {
  tx_id = id;
  gtid = [];
  xid = 7;
  commit_time = 1;
  schema = codes "shop";
  tables = [];
  row_count = pos 1;
  truncated = false;
}

abbrev pub wire : Text → ℕ → StatementWire
wire id n = record { sql = codes "DELETE"; tx_id = id; tx_order = pos n; warnings = [] }

-- A transaction and a statement that come twice, and one transaction too many.
abbrev stagings : List Staging
stagings =
    tx_meta (meta (codes "a"))
    ∷ tx_meta (meta (codes "a"))
    ∷ sql (wire (codes "a") 0 ∷ wire (codes "a") 0 ∷ wire (codes "b") 0 ∷ [])
    ∷ tx_meta (meta (codes "b"))
    ∷ []

preview-IsValid_example : IsValid (staged_all stagings (new_preview 1))
preview-IsValid_example = preview-IsValid 1 stagings

abbrev no_filter : Filter Text
no_filter = record {
  binlog_dir = [];
  tables = [];
  time_range = none;
  gtid_set = none;
  start_pos = record { name = []; pos = 0 };
  end_pos = record { name = []; pos = 0 };
  max_rows_per_tx = pos 0;
  selected_tx_ids = [];
}

abbrev pub operation : Text → OperationState → Operation Text
operation id st = record {
  id = id;
  org_id = codes "org";
  agent_id = codes "agent";
  op_type = codes "pitr";
  mode = codes "sql";
  filter = no_filter;
  status = st;
  created_by = codes "user";
  created_at = 1;
  updated_at = 1;
  selected_tx_ids = [];
  target_tables = [];
  statements = [];
}

abbrev pub server : Server Text
server = record {
  operations =
      operation (codes "a") scanning
      ∷ operation (codes "b") ready
      ∷ operation (codes "c") done
      ∷ [];
  audits = [];
  previews = [];
  calls = 0;
}

abbrev pub answers : Answers
answers = record {
  now = λ n. 2;
  update_err = λ n. none;
  list_err = λ n. none;
  audit_err = λ n. none;
}

answers-NoErrors : NoErrors answers
answers-NoErrors = record { updates = λ n. refl; lists = λ n. refl }

-- A failure of a record that is out of date, a disconnection, and a restart.
abbrev actions : List (Action Text)
actions =
    move (operation (codes "b") ready) executing
    ∷ fail (operation (codes "b") ready) (codes "late")
    ∷ disconnect (codes "agent")
    ∷ reconcile
    ∷ []

acts-Moved_example : Moved server.operations (acts answers actions server).operations
acts-Moved_example = acts-Moved answers actions server

transition_to-Swapped_example :
    Swapped
      (operation (codes "b") ready)
      executing
      server
      (transition_to answers (operation (codes "b") ready) executing server)
transition_to-Swapped_example =
    transition_to-Swapped answers (operation (codes "b") ready) executing server

reconcile_on_startup-states_example :
    ((reconcile_on_startup answers server).0 ≡ none)
    × (states (reconcile_on_startup answers server).1.operations
        ≡ blocked_where
            (λ r. state_eq r.1 scanning || state_eq r.1 executing)
            (states server.operations))
reconcile_on_startup-states_example = reconcile_on_startup-states answers answers-NoErrors server

abbrev stored : OpStatement
stored = record {
  tx_index = pos 0;
  stmt_index = pos 0;
  sql = codes "DELETE";
  tx_id = codes "tx-1";
  tx_order = pos 0;
  warnings = [];
  status = codes "pending";
}

abbrev db : Db Text
db = record {
  operations = operation (codes "a") ready ∷ [];
  statements = (codes "a", stored) ∷ (codes "b", stored) ∷ [];
  checkpoints = [];
  calls = 0;
}

abbrev pub sqlite : Sql
sqlite = record { exec_err = λ n. none; now = λ n. 2; new_id = λ n. codes "op" }

save_statements-Replaced_example :
    Replaced
      (codes "a")
      (stored ∷ [])
      (codes "b")
      db
      (save_statements sqlite (codes "a") (stored ∷ []) db)
save_statements-Replaced_example =
    save_statements-Replaced sqlite (codes "a") (stored ∷ []) (codes "b") db

save_statements_and_select-Replaced_example :
    let (e, db') = save_statements_and_select sqlite (codes "a") (stored ∷ []) [] [] db in
    Replaced (codes "a") (stored ∷ []) (codes "b") db (e, db')
    × (((e ≡ none)
          × IsStored (codes "a") db.operations
          × ((ts : Time) × SelectedRows (codes "a") [] [] ts db.operations db'.operations))
        ⊎ (e ≢ none))
save_statements_and_select-Replaced_example =
    save_statements_and_select-Replaced sqlite (codes "a") (stored ∷ []) [] [] (codes "b") db

abbrev stream_event : StreamEvent
stream_event = record { id = codes "a"; kind = codes "progress"; payload = codes "{}" }

abbrev bus_history : List BusCall
bus_history =
    subscribed (codes "a")
    ∷ subscribed (codes "a")
    ∷ published (codes "a") stream_event
    ∷ unsubscribed (codes "a") 0
    ∷ []

abbrev bus : EventBus
bus = bus_calls (subscribed (codes "a") ∷ subscribed (codes "a") ∷ []) new_event_bus

bus_calls-IsSound_example : IsSound (bus_calls bus_history new_event_bus)
bus_calls-IsSound_example = bus_calls-IsSound bus_history

bus-is_distinct : is_distinct (subs_of (codes "a") bus) ≡ true
bus-is_distinct =
    (bus_calls-IsSound (subscribed (codes "a") ∷ subscribed (codes "a") ∷ [])).distinct (codes "a")

publish-buffer_example :
    ((publish (codes "a") stream_event bus).buffer 1 ≡ (
      if is_in 1 (subs_of (codes "a") bus)
      then offered stream_event (bus.buffer 1)
      else bus.buffer 1))
    × ((publish (codes "a") stream_event (unsubscribe (codes "a") 0 bus)).buffer 1 ≡ (
        if not (1 == 0) && is_in 1 (subs_of (codes "a") bus)
        then offered stream_event (bus.buffer 1)
        else bus.buffer 1))
publish-buffer_example = publish-buffer (codes "a") stream_event bus 0 1 bus-is_distinct
