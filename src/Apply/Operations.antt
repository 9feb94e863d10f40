-- ===== src/Apply/Operations.antt =====
-- `pgraft_apply_kv_operation`, `pgraft_apply_entry_to_postgres` and the applied index of
-- src/pgraft_apply.c, and the callbacks of src/pgraft_go_apply.c and src/pgraft_go_callbacks.c.
use pgraft.Base.{
  ℕ, Bool, true, false, Option, none, some, List, ◌==◌, if◌then◌else◌, get_or, CString, Status, ok,
  fail, raised, fault,
}
use pgraft.Kv.Service.{Io, Kv, OpType, put_local, delete_local}
use pgraft.Json.Values.{JsonC}
use pgraft.Json.Operations.{Operation, parsed, refused, crashed, parse_kv_operation}
use pgraft.Worker.State.{Worker}
use pgraft.Worker.Apply.{enqueue_apply_entry}
use pgraft.Apply.Entries.{RaftEntry, brace, until_nul, parse_log_entry}

-- What a result other than 0 becomes: elog(ERROR).
abbrev pub checked : Status → Status
checked ok = ok
checked fail = raised
checked raised = raised
checked fault = fault

-- The switch on the type.
unfoldable pub apply_operation : Io → Operation → OpType → Kv → Status × Kv
apply_operation io o OpType.kv_put k = elim o.value [
  | none ↦ (raised, k)
  | some value ↦ let (s, k') = put_local io (some o.key) (some value) k in (checked s, k')
]
apply_operation io o OpType.kv_delete k =
    let (s, k') = delete_local io (some o.key) k in (checked s, k')
apply_operation io o OpType.kv_get k = (raised, k)

-- The parser raises its errors itself, or ends the process.
unfoldable pub apply_kv_operation : JsonC → Io → CString → Kv → Status × Kv
apply_kv_operation lib io json_data k = elim (parse_kv_operation lib json_data) [
  | parsed o ↦ apply_operation io o o.op_type k
  | refused ↦ (raised, k)
  | crashed ↦ (fault, k)
]

unfoldable pub record_applied_index : ℕ → Worker → Worker
record_applied_index index w = record w { last_applied_index = index }

unfoldable pub get_applied_index : Worker → ℕ
get_applied_index w = w.last_applied_index

-- A server: the key/value store, the worker's shared memory, and the database with all else.
pub record Server (DB : Type 0) : Type 0 where
  pub kv : Kv
  pub worker : Worker
  pub database : DB

-- PostgreSQL's server programming interface: whether it connects, and what it makes of a
-- statement. A statement can call any function of the extension, so it changes the whole server.
-- `execute` ends with `ok` where its result is not negative, with `fail` where it is, and with
-- `raised` where the statement raises an error.
pub record Spi (DB : Type 0) : Type 0 where
  pub connects : Bool
  pub execute : CString → Server DB → Status × Server DB

module _ {DB : Type 0} where
  -- A failed or raised operation is not recorded.
  unfoldable pub record_if_ok : ℕ → Status → Server DB → Status × Server DB
  record_if_ok raft_index ok v =
      (ok, record v { worker = record_applied_index raft_index v.worker })
  record_if_ok raft_index s v = (s, v)

  unfoldable pub apply_sql : Spi DB → ℕ → Option RaftEntry → Server DB → Status × Server DB
  apply_sql spi raft_index none v = (fail, v)
  apply_sql spi raft_index (some e) v = elim spi.connects [
    | false ↦ (fail, v)
    | true ↦ let (s, v') = spi.execute e.sql v in record_if_ok raft_index s v'
  ]

  -- `payload` is the memory from `data` on, of which `len` bytes are the entry. The JSON reader is
  -- given no length: it reads up to a terminator.
  unfoldable pub apply_entry_to_postgres :
      JsonC → Io → Spi DB → ℕ → List ℕ → ℕ → Server DB → Status × Server DB
  apply_entry_to_postgres lib io spi raft_index payload len v =
      if get_or payload 0 0 == brace
      then (let (s, kv) = apply_kv_operation lib io (until_nul payload) v.kv in
          record_if_ok raft_index s (record v { kv = kv }))
      else apply_sql spi raft_index (parse_log_entry (some payload) len) v

  -- `pgraft_go_apply_callback`, which Go calls.
  unfoldable pub go_apply_callback :
      JsonC → Io → Spi DB → ℕ → List ℕ → ℕ → Server DB → Status × Server DB
  go_apply_callback lib io spi raft_index payload len v =
      apply_entry_to_postgres lib io spi raft_index payload len v

-- `pgraft_enqueue_for_apply_from_go`, which Go calls.
unfoldable pub enqueue_for_apply_from_go : ℕ → Option (List ℕ) → ℕ → Worker → Status × Worker
enqueue_for_apply_from_go raft_index input data_len w =
    let (queued, w') = enqueue_apply_entry raft_index input data_len w in
    (if queued then ok else fail, w')
