-- ===== src/Lib.antt =====
-- PyLeaner, the Python client of the Lean 4 language server (pyleaner/). A caller hands a task to
-- `submit_resilient`; the pool's router sends it to a worker thread, which answers on the task's
-- result queue; a separate monitor process watches the server, and its events make the owning
-- process restart the server, blame the tasks that caused the failure and let the other callers
-- try again; a timeout policy counts the timeouts at the tool boundary of a sample.
--
-- The files and the code that they are about:
--
--   * Base: numbers, Boolean tests, lists, texts (lists of character codes), association lists
--     in insertion order for dicts, JSON values.
--   * Task: the shared types: `Task` (pyleaner/__init__.py), `Error` (pyleaner/errors.py and the
--     exceptions that the client tells apart), `Response` (what a worker puts on a result
--     queue), `LogEntry` (the events of pyleaner/observability.py, their identifying fields),
--     `Message` (a notification).
--   * Pool: pyleaner/pool.py: the router's step `route` with `load` and `least`, `submit_task`
--     and `get_worker_for_uri`; Pool/Starting: `WorkerPool.__init__`, `initialize_all_workers`
--     and `LspClient.initialize_worker_pool`; Pool/Api: each public method as the task that it
--     submits.
--   * Worker: pyleaner/worker.py: Worker/Methods is the dispatch table with the handlers'
--     parameters and RPC names, Worker/Loop the thread loop `_run`: `begin_round` takes the
--     task, `settle` answers it (`settle_result` with the counting of the diagnostics, whose
--     error gives a second response), `on_service_unavailable` drains the queue. Worker/Document
--     has `_didopen` and `_didchange` with their loops over the notification queue,
--     Worker/Handlers the handlers that change the document and then make an RPC
--     (`document_rpc`), Worker/Goals `get_proof_goal` and `get_diagnostics`.
--   * Watchdog: pyleaner/watchdog.py: Watchdog/Types has the constants, commands and events,
--     Watchdog/Monitor the monitor process `_watchdog_monitor_main` (`handle` for a command,
--     `observe` for a round, `inspect` for a guard), Watchdog/Recovery the class `Watchdog`
--     (`restart` for `_restart`, `recover_with_retry`, `accept_replacement_guard`),
--     Watchdog/Shutdown what `stop` sends and which scopes it stops, Watchdog/Lifecycle which
--     monitors and receivers `start` and `stop` make and end, Watchdog/Processes the search for
--     the server's processes and the order in which they are killed, Watchdog/Workers which of
--     them runs which worker (`_lean_worker_pids`), Watchdog/Guards `attach_worker_guards` with
--     `_systemd_scope_for_pid`, Watchdog/Settings what `__init__` accepts, Watchdog/Receiver the
--     thread `_receive_events`, Watchdog/Proc what is read from /proc and the cgroups
--     (`_process_alive`, `_read_rss_anon`, `_read_oom_kill`, `_find_orphaned_lean`).
--   * Client: pyleaner/client.py: Client/Resilient is `_submit_resilient` with one `Attempt` for
--     each turn of its loop; Client/Frames is `_make_lsp_message` and `_read_message`,
--     Client/Messages the reader thread `_read_stdout` with `_handle_message` and the routing
--     and buffering of notifications, Client/Terminal `_read_stderr` with
--     `_sanitize_for_terminal`, Client/Processes `start`, `exit` and `_cleanup_lean_processes`,
--     Client/Connection `connect` and `exit` with the watchdog that they start and stop.
--   * Rpc: pyleaner/rpc_session.py: Rpc/Errors is `classify_rpc_error`, Rpc/Session the class
--     `RpcSession` with `LspClient.request`: `call` runs against a `Course`, what happens to
--     each of the requests that it may make; Rpc/KeepAlive is a round of `KeepAliveManager`.
--   * Incident: what the callers meet when an event of the monitor, the restart, the worker's
--     answers and `_submit_resilient` are put together.
--   * TimeoutPolicy: pyleaner/timeout_policy.py: `sample_timeout_scope` enters a scope from a
--     journal, `run_lean_tool` runs a callback and counts.
--   * Observability: pyleaner/observability.py with its use in pyleaner/client.py:
--     Observability/Imports is `_imports`, Observability/Closure `_local_import_closure` over a
--     `Disk`, Observability/Environment the two fingerprints, Observability/Cached the client's
--     caches, Observability/Events `emit_safely` and `observation_context`.
--   * Tests: runs of the definitions on small inputs.
--
-- How the code is modelled. A queue is a list, its front first. Times are whole milliseconds.
-- What the world does is an input: the monitor runs over a list of rounds, each with the commands
-- that are in its queue and a `World` that says what the processes, the cgroups and systemd show
-- in that round; a worker's thread over a list of rounds, each with the way that the handler ends
-- and what is routed to the worker meanwhile; `_didchange` over a list of waits on its
-- notification queue; `_submit_resilient` over a list of attempts, each with what comes out of
-- its result queue; the recovery over a list of rebuildings, each with what `connect` and
-- `create_pool` do. So the loops are structural recursion on what happens. The search for the
-- processes below the server has fuel, one unit for each process that it expands, and it expands
-- none twice; the import closure has fuel for each module that it visits, and it visits none
-- twice. A theorem about a loop is about every such history.
--
-- What is not modelled: how long the joining of threads and processes takes (whether they outlive
-- it is an input), locks inside a single operation, output for people, the hashes and the clock
-- in the events, the access to /proc, to cgroup files and to systemctl (what the monitor meets
-- there is the `World`, elsewhere the contents of the files are given), the Lean side of the
-- RPCs, and what `json` and the codecs do to the content of a message.
pub mod Base
pub mod Task
pub mod Pool
pub mod Worker
pub mod Client
pub mod Incident
pub mod Watchdog
pub mod TimeoutPolicy
pub mod Tests
pub mod Rpc
pub mod Observability
