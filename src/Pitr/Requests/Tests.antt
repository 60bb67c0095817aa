-- ===== src/Pitr/Requests/Tests.antt =====
-- Requests and events of internal/server/pitr/handler.go at concrete states.
use mysql_pitr.Base.{◌≡◌, refl, true, false, List, [], ◌∷◌, ◌++◌, none, some, any}
use mysql_pitr.Base.Text.{Text, codes}
use mysql_pitr.Base.Int.{pos}
use mysql_pitr.Base.Result.{ok}
use mysql_pitr.Base.Dict.{lookup}
use mysql_pitr.Pitr.State.{ready, executing, done, state_eq}
use mysql_pitr.Pitr.Preview.{Preview}
use mysql_pitr.Pitr.Operations.{Operation, is_row, tables_of_selected}
use mysql_pitr.Pitr.Events.{StreamEvent, subs_of, new_event_bus}
use mysql_pitr.Pitr.Calls.{
  ScanFilter, execute, accepted, Json, HandlerState, HandlerEnv, stop, asks, value_at, ◌>>=◌, on_db,
  pure, end_with,
}
use mysql_pitr.Pitr.Calls.Guarantee.{Guarantees}
use mysql_pitr.Pitr.Calls.Advances.{Advances, Advances-IsPreorder, OthersAdvance}
use mysql_pitr.Pitr.Stream.{
  handle_stream_event, handle_kind, ev_op_done, selected_statements, wires_statements,
}
use mysql_pitr.Pitr.Stream.Advances.{handle_stream_event-Advances}
use mysql_pitr.Pitr.Stream.Outcome.{Finished, op_done-Finished}
use mysql_pitr.Pitr.Filters.{Formats, statements_to_wire}
use mysql_pitr.Pitr.Filters.Recorded.{FormatsRoundTrip}
use mysql_pitr.Pitr.Requests.{Request, replied, selected}
use mysql_pitr.Pitr.Requests.Run.{send_execute}
use mysql_pitr.Pitr.Requests.Select.{select_staged, save_selection, unknown_ids, without_sql}
use mysql_pitr.Pitr.Requests.Sent.{OthersAreSilent}
use mysql_pitr.Pitr.Requests.Selection.{execute_commands, chosen, send_execute-select_staged}
use mysql_pitr.Pitr.Requests.Sse.{receives, ticks, sse_loop}
use mysql_pitr.Pitr.Requests.Frames.{Yields, EndsOnTerminal, sse_loop-Yields}
use mysql_pitr.Pitr.Requests.Routes.{to_execute, to_cancel, serve, serve-Advances}
use mysql_pitr.Pitr.Requests.Denied.{Denies, IsOutsider, serve-Denies}
use mysql_pitr.Pitr.Store.{save_statements_and_select, replace_statements, insert_statements}
use mysql_pitr.Pitr.Tests.{operation, answers, sqlite, server, meta, wire}

-- Payloads that are not decoded, except for the report of an execution.
abbrev json : Json
json = record {
  tx_meta = λ t. none;
  statements = λ t. none;
  progress = λ t. none;
  op_done = λ t. (
    true,
    record { done = pos 1; total = pos 1; rows_affected = pos 1; paused = false; errors = [] },
  );
  string = λ t. none;
  errors_text = λ es. [];
  paused_text = λ st n m. [];
  terminal_text = λ st c. [];
  go_quote = λ t. t;
}

-- Nobody interferes, the agent accepts, and the only member is "user".
abbrev env : HandlerEnv Text
env = record {
  answers = answers;
  sql = sqlite;
  json = json;
  others = λ n s. s;
  reply = λ n agent cmd. ok accepted;
  is_connected = λ n agent. true;
  members = λ n org. some (codes "user" ∷ []);
  agent = λ n id. none;
}

abbrev rely : OthersAdvance env
rely = record { advance = λ n s. Advances-IsPreorder.reflexive s }

abbrev silent : OthersAreSilent env
silent = record { silent = λ n s. refl }

abbrev preview : Preview
preview = record {
  metas = meta (codes "t1") ∷ [];
  sql_by_tx = (codes "t1", wire (codes "t1") 0 ∷ []) ∷ [];
  known = codes "t1" ∷ [];
  max_entries = 10;
  truncated = false;
}

-- One operation that is ready, with its preview.
abbrev state : HandlerState Text
state = record {
  server = record server {
    operations = operation (codes "b") ready ∷ [];
    previews = (codes "b", preview) ∷ [];
  };
  statements = [];
  checkpoints = [];
  bus = new_event_bus;
  sent = [];
}

abbrev report : StreamEvent
report = record { id = codes "b"; kind = codes "op_done"; payload = codes "{}" }

abbrev running : Operation Text
running = operation (codes "b") executing

abbrev running_state : HandlerState Text
running_state = record state { server = record state.server { operations = running ∷ [] } }

handle_stream_event-Advances_example :
    Guarantees Advances (handle_stream_event env (codes "agent") report)
handle_stream_event-Advances_example = handle_stream_event-Advances env rely (codes "agent") report

running-is_row : any (is_row running.id running.status) running_state.server.operations ≡ true
unfolding state_eq
running-is_row = refl

op_done-Finished_example :
    Finished env running done report running.id 0 running_state
      (handle_kind env ev_op_done running report running_state).1
unfolding subs_of lookup
op_done-Finished_example =
    op_done-Finished env running report running.id 0 running_state refl refl refl refl
      running-is_row

-- A time is printed as one number, and a set behind a letter.
abbrev formats : Formats Text
formats = record {
  parse_time = λ t. elim t [ [] ↦ none | n ∷ ns ↦ some n ];
  time_text = λ n. n ∷ [];
  parse_mysql_set = λ t. elim t [ [] ↦ none | n ∷ ns ↦ some ns ];
  parse_mariadb_set = λ t. none;
  set_text = λ g. b'g' ∷ g;
  go_quote = λ t. t;
}

abbrev law : FormatsRoundTrip formats
law = record { time = λ n i. (refl, refl); set = λ t g e q. (refl, refl) }

abbrev wire_filter : ScanFilter
wire_filter = record {
  tables = [];
  time_start = 3000000000 ∷ [];
  time_end = [];
  gtid_set = codes "guuid";
  start_file = codes "bin.1";
  start_pos = 4;
  end_file = [];
  end_pos = 9;
  max_rows_per_tx = pos 3;
  selected_tx_ids = [];
}

abbrev request : Request
request = record { user = codes "user"; email = codes "u@x"; id = codes "b" }

serve-Advances_example : Guarantees Advances (serve env formats request (to_execute (some (pos 5))))
serve-Advances_example = serve-Advances env formats rely request (to_execute (some (pos 5))) refl

eve-IsOutsider : IsOutsider env (codes "eve")
eve-IsOutsider n org = refl

serve-Denies_example :
    Denies (serve env formats (record { user = codes "eve"; email = []; id = codes "b" }) to_cancel)
serve-Denies_example =
    serve-Denies env formats (codes "eve") [] (codes "b") to_cancel eve-IsOutsider

sse_loop-Yields_example : Yields EndsOnTerminal (sse_loop env (codes "b") 0 (receives ∷ ticks ∷ []))
sse_loop-Yields_example = sse_loop-Yields env (codes "b") 0 (receives ∷ ticks ∷ [])

abbrev chosen_ids : List Text
chosen_ids = codes "t1" ∷ []

abbrev ready_op : Operation Text
ready_op = operation (codes "b") ready

select_staged_replied :
    (select_staged env ready_op chosen_ids state).0
    ≡ stop (replied 200 (selected (codes "b") ready chosen_ids 1))
unfolding select_staged save_selection unknown_ids without_sql asks value_at ◌>>=◌ on_db pure
    end_with selected_statements wires_statements save_statements_and_select replace_statements
    insert_statements tables_of_selected lookup
select_staged_replied = refl

send_execute-select_staged_example :
    let t = (select_staged env ready_op chosen_ids state).1 in
    (send_execute env ready_op
      (λ stmts. execute ready_op.id (statements_to_wire stmts) (pos 5))
      t).1.sent
    ≡ t.sent ++ execute_commands ready_op (pos 5) (chosen preview chosen_ids)
unfolding lookup
send_execute-select_staged_example =
    send_execute-select_staged env ready_op chosen_ids preview 200
      (selected (codes "b") ready chosen_ids 1) state (pos 5) refl select_staged_replied refl silent
