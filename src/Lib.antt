-- ===== src/Lib.antt =====
-- pgraft: a PostgreSQL extension that runs Raft. The consensus protocol itself is a Go library;
-- the C code keeps the state that backends, the background worker and the Go library share.
--
-- The parts and how they interact. SQL functions put commands into the worker's queue. The
-- background worker takes them out, tracks their status in a second buffer, and calls the Go
-- library. Entries that Raft commits come back into the apply queue and the replicated log, and
-- key/value operations end in the store, which is written to a file after each change.
--
--   Kv      src/pgraft_kv.c and include/pgraft_kv.h, the key/value store. Kv.Store and Kv.Maintain
--           hold what runs under its spinlock (put_store is pgraft_kv_put between lock and unlock),
--           Kv.Service the functions themselves with the null checks and the file.
--   Worker  src/pgraft_util.c, include/pgraft_core.h and pgraft_worker_get_state of src/pgraft.c:
--           the command queue (Worker.Queue), the status buffer (Worker.Statuses), the apply queue
--           (Worker.Apply). The functions carry the names of the source without the prefix.
--   Ring    the circular buffer that those three write out by hand.
--   Log     src/pgraft_log.c and include/pgraft_log.h: the replicated log (Log.State, Log.Ops).
--   Core    src/pgraft_core.c: the cluster record (Core.Cluster).
--   GoState src/pgraft_state.c and include/pgraft_state.h: what is kept of the Go library.
--   Config  src/pgraft_guc.c: the parsers and the validation of the configuration.
--   Json    src/pgraft_json.c: operations and node lists as values of json-c (Json.Operations).
--   Apply   src/pgraft_apply.c, src/pgraft_go_apply.c and src/pgraft_go_callbacks.c: entries that
--           Raft commits, on their way into the store or the database (Apply.Operations).
--   Sql     src/pgraft_kv_sql.c: the SQL functions on keys and values (Sql.Keys).
--           src/pgraft_sql.c: those on nodes, the leader and the log (Sql.Nodes, Sql.Tables).
--   Golib   src/pgraft_go.c: the loader of the Go library and the calls of it.
--   Start   pgraft_init_from_gucs of src/pgraft_sql.c and pgraft_main before its loop.
--   Loop    pgraft_main of src/pgraft.c with its helpers: one iteration is Loop.Iterate.iterate,
--           which calls the functions of Worker, Core, Log, Json, Golib and Replicate.
--   Replicate  the calls of src/pgraft_kv.c that send a write to the worker, with the refresh of
--           the cluster record in src/pgraft.c.
--   Base    shared helpers: tests, arrays, searches, 64-bit words, C strings.
--
-- Modelling. Each function is one step. For the log, the cluster record and the Go library's
-- state that is what their spinlocks give. In the store a call of PUT, DELETE, COMPACT or RESET
-- is two steps, what it does under the lock and then the save or the removal of the file: `put`,
-- `delete`, `compact` and `reset` are calls that no other process parts, and Kv.Run.Step has the
-- steps apart too. The save, from fopen to fclose, is one step. The queue functions of
-- src/pgraft_util.c take no lock, so the model describes calls of them that do not overlap. A C
-- string is the list of its bytes before the terminator. An int64_t is its 64 bits, with
-- arithmetic modulo 2 ^ 64, since PostgreSQL compiles with -fwrapv. A call of elog(ERROR) leaves
-- the function, hence the result `raised`; a write outside an array, or a NULL pointer read, is
-- `fault`, which ends a process or a history. The clock and the file system are arguments. Every
-- loop of the C code but the worker's is recursion on its number of rounds or on the list it
-- visits, so nothing runs out of fuel. A text field is copied by strncpy with its last byte kept
-- for the terminator. Output arguments are results.
--
-- What the Go library, json-c, dlopen and SPI do is a parameter: the answers of one iteration are
-- a World, json-c is its pair of print and parse, the server is whatever SPI makes of it by a
-- statement, which can call the functions here. The worker's loop is given the number of its
-- iterations; an error ends it, as it ends the process.
--
-- Not modelled: the Go library itself, the SQL functions of src/pgraft_sql.c that return other
-- tables or only call Go (glue between SQL arguments and the functions here), the registration of
-- the configuration variables, and the state file that the refresh writes.
pub mod Apply
pub mod Base
pub mod Config
pub mod Core
pub mod GoState
pub mod Golib
pub mod Json
pub mod Kv
pub mod Log
pub mod Loop
pub mod Replicate
pub mod Ring
pub mod Sql
pub mod Start
pub mod Worker
