-- ===== src/Lib.antt =====
-- Verification of mysql-pitr: point-in-time recovery for MySQL by scanning binlogs, generating the
-- reverse SQL of selected transactions, and executing it in resumable batches.
--
-- The parts and how they work together. The scanner (internal/binlog) turns the events of binlog
-- files into transactions and filters them; the scan stream (internal/scan) turns each transaction
-- into metadata and, through the generator (internal/reverse), into reverse statements; the server
-- (internal/server/pitr) holds an operation for each recovery, stages the preview that an agent
-- streams, and moves the operation through its states; the executor (internal/executor) runs the
-- statements of a plan in batches, one database transaction each, with a checkpoint behind each.
--
-- Which file models what:
--   Base            Go strings as lists of bytes, maps as association lists, int as signed numbers,
--                   and pairs of value and error as `Result`.
--   Binlog          Types, Transaction, Filter, Engine and Files are internal/binlog/transaction.go,
--                   gtid.go and engine.go: `Scan` is the state of one file in parseFile (the pending
--                   transaction, the table maps, the transactions sent), `handle_event` is
--                   handleEvent, `emit` is emit, `run_parse_loop` is runParseLoop. Library holds
--                   what the scanner takes from go-mysql, SHA-256, the random source and the clock,
--                   as parameters.
--   Reverse         internal/reverse/generator.go: Literal (quoteIdent, formatValue, joinValues),
--                   Where (resolvePKIndices, buildWhere and its helpers), Generate (buildReverseSQL,
--                   Generate). Literal/Lexer reads literals and names by the quoting rules of MySQL,
--                   as an independent description. Renderings of other packages are the parameter
--                   `Formats`.
--   Scan            internal/scan/scan.go: Stream, generateSQL and its schema cache.
--   Executor        Types and Run are internal/executor/types.go and executor.go; Store is
--                   checkpoint.go, Files is file_store.go. `Env` answers the calls of the
--                   database and of the context by the history of the calls made before, and of the checkpoint store by its state,
--                   so that a theorem for every `Env` covers every failure and every moment of a
--                   cancellation. `exec_batch` is the inner loop of runFromIndex, `iteration` the
--                   body of the outer one, `run` and `resume` are Run and Resume.
--   Pitr            State is internal/server/pitr/state.go; Preview is the staging of handler.go
--                   (stageTxMeta, stageSQL); Operations is transitionTo, failOperation,
--                   blockOperation, HandleAgentDisconnect and ReconcileOnStartup of handler.go over
--                   UpdateIfStatus and ListByStatus of store.go; Store is the other operations of
--                   store.go and internal/server/store/checkpoint.go, on tables as lists of rows;
--                   Events is events.go, its channels numbers with buffers. Calls has the state
--                   of `Handler` with the store behind it, and programs over it that end early with
--                   a reply (`>>=`); Stream is HandleStreamEvent with confirmPause and
--                   persistSelectedStatements; Filters is the mapping of the scan filters;
--                   Requests and its modules are the HTTP handlers (Start, Select, Run for Execute,
--                   Resume, Pause and Cancel, Sse for Events, and Status, Transactions and List),
--                   and Routes what internal/server/router.go sends to them. The answers of the
--                   database, the clock, the audit log, the agents and the stores of agents and
--                   organisations are parameters, by the number of the call. `others` is what the
--                   rest of the server does to the state while a handler waits: behind the read of
--                   the operation, while an agent answers, and between the turns of a stream.
--   Disk            Files as the two stores of checkpoints use them: named contents, behind calls of
--                   the operating system that can fail, a torn write included.
--   Connector       topoSort and GetFKOrder of internal/connector/fk.go.
--   Rollback        internal/checkpoint/manager.go.
--   Daemon          The agent's side of a command: wsFilterToBinlog and scanMode of
--                   internal/daemon/scan.go, ParseGTIDSet of internal/binlog/gtid.go; Execute is
--                   internal/daemon/execute.go over the executor, its events a list.
-- The modules named Tests hold concrete inputs and the instances of the theorems at them.
--
-- Bounds and fuel. Two loops run on fuel. The outer loop of the executor has one round more than
-- there are statements left; a round commits at least one statement, since the batch size is
-- positive. Kahn's loop of topoSort has as much as there are tables in the queue and entries in the
-- map of degrees: a table joins the queue only when its degree falls to 0. Row counts are int64 bit
-- patterns and wrap at 2 ^ 64. Indexes and lengths are natural numbers: the sum `completed +
-- BatchSize`, which Go computes in an int, does not wrap in the model, so plans with a batch size
-- near 2 ^ 63 are outside of it. Times count nanoseconds from Go's zero time. JSON encodings are
-- taken to be faithful.
--
-- Not modelled: goroutines, channels and Close of the scanner (its transactions are a list, and the
-- consumer takes all of them); reading binlog files and the network; the HTTP server, its
-- middleware and the encoding of requests and replies; log lines; accounts and organisations; the
-- queries of the connector; archive and collector; the daemon's registry of running operations and
-- the events of its scans; the hub, the agent's client and its certificates; command lines and
-- configuration.
pub mod Base
pub mod Disk
pub mod Binlog
pub mod Reverse
pub mod Executor
pub mod Connector
pub mod Daemon
pub mod Rollback
pub mod Pitr
pub mod Scan
