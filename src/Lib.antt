-- ===== src/Lib.antt =====
-- Verification of Matryca Plumber.
--
-- The program keeps an external SQLite cache of a Logseq graph, serves reads of the graph to
-- sessions, and runs a daemon that maintains its pages. Modelled are:
--
-- * the Shadow DB, that cache (src/shadow): Shadow and its children. `Shadow.Database` has the
--   tables as lists of rows, `Shadow.Meta`, `Shadow.Quarantine` and `Shadow.Tables` the statements,
--   `Shadow.Runtime` the process-local sets (runtime_state.py), `Shadow.SyncFailure` the latch and
--   marker of a failed write (sync_failure.py). `Shadow.Outline`, `Shadow.Sync` and `Shadow.Writer`
--   are sync.py, `Shadow.Bootstrap` is bootstrap.py. `Shadow.Health` and `Shadow.StateApi` are the
--   two views of the state (health.py, state_api.py), `Shadow.Console` and `Shadow.Errors` the
--   public messages. `Shadow.Rebuild` follows every source path through a rebuild;
--   `Shadow.FailClosed`, `Shadow.Agreement` and `Shadow.Drift` relate the parts.
-- * the title of a page path (src/graph/page_path.py): `Graph.PagePath`.
-- * the read session (src/graph/session_read_service.py, session_read_models.py and
--   session_topology_models.py): `Session`.
-- * the lexical search and its query cache (src/graph/generational_cache.py): `Search`. The scoring
--   is an argument of the model, since it computes with floats.
-- * the ledger and the page queue of the daemon (src/agent/daemon_state.py and
--   daemon_page_queue.py): `Daemon`. Its checkpoint file is `Daemon.Json`, `Daemon.Journey`
--   (journey_log.py), `Daemon.Checkpoint` (`to_json`, `from_json`) and `Daemon.Storage`
--   (`load_daemon_state`, `save_daemon_state`).
-- * the subtree read (src/shadow/subtree.py): `Shadow.Subtree`. `Walk` has the two checks, `Query`
--   the bounded query and the byte limit, `Answer` the whole read.
-- * the read-only policy (src/graph/safety/write_policy.py): `Graph.WritePolicy`.
-- * the in-process page locks (src/graph/page_write_lock.py): `Graph.PageLocks`.
-- * the dashboard job (src/agent/dashboard_job.py, with the outcome, the stage channel and the
--   deadlines of dashboard_protocol.py and dashboard_process.py): `Dashboard`.
--
-- A writer changes the database in a transaction, and what fails in it is recorded by the latch,
-- the marker and the metadata; health and the state API read all three. The process state, the
-- marker and the database are one record, `Shadow.Process`; what the file system, SQLite and the
-- environment answer is another, `Surroundings`, with a field per way an operation can fail. A
-- rebuild and a write hold their locks throughout, so each is one step; what other threads defer
-- during a rebuild, which takes no lock, is an argument of it. The parser of pages and the
-- resolution of paths lie outside: a parse is a value of the graph, `normalize_daemon_file_key` an
-- argument.
--
-- Numbers are natural numbers; a time is a number of ticks or nanoseconds. Loops are recursion on
-- lists, and only `str` of a number recurses on fuel, one more than the number, which its round
-- trip with `int_of` shows to be enough. Exceptions are values.
--
-- The dashboard job is a step relation: readers, owner threads and the clock take turns in any
-- order, for every job that was ever admitted, and a reader may leave whenever `_wait_owner` may.
-- A save of the checkpoint holds its lock and is one step; where it can be interrupted is a relation
-- on disks. The codec of JSON, the file system and the resolution of paths are arguments. The
-- recursive query of the cross-page check answers as if SQLite ends it, after as many rounds as
-- there are blocks; the cycle search goes by depth, on fuel: the results say how much is enough. The
-- other recursive queries are bounded by their depth limit.
--
-- Not modelled: the full-text index and the memory graph of the Shadow DB, file locations and lock
-- files, the worker process of the dashboard, the language model calls, the transports and the
-- frontend.
pub mod Prelude
pub mod Graph
pub mod Daemon
pub mod Search
pub mod Session
pub mod Shadow
pub mod Dashboard
