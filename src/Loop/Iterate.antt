-- ===== src/Loop/Iterate.antt =====
-- The loop of `pgraft_main` in src/pgraft.c.
use pgraft.Base.{
  ℕ, zero, suc, ◌+◌, ◌%◌, ◌&&◌, Bool, true, false, Option, none, some, [], ◌++◌, leb, ◌==◌, lt32,
  if◌then◌else◌, length, CString, bytes, copy_text, decimal32, Status, ok, fail, raised, fault,
}
use pgraft.Core.Cluster.{Cluster}
use pgraft.Log.State.{LogState}
use pgraft.Kv.Service.{OpType}
use pgraft.Json.Values.{JsonC}
use pgraft.Json.Operations.{create_kv_operation}
use pgraft.Worker.State.{
  CommandType, init, add_node, remove_node, log_append, log_commit, log_apply, shutdown, kv_put,
  kv_delete, Command, completed, failed, Worker, WorkerStatus, running, stopped,
}
use pgraft.Worker.Queue.{dequeue_command}
use pgraft.Worker.Statuses.{add_command_to_status, update_command_status}
use pgraft.Replicate.Write.{update_from_go}
use pgraft.Golib.Loader.{Process}
use pgraft.Golib.Calls.{go_is_loaded, go_append_log}
use pgraft.Loop.Commands.{
  World, init_system, add_node_system, remove_node_system, log_append_system, log_commit_system,
  log_apply_system,
}

-- The shared memory that the worker uses, and what is its own.
pub record System : Type 0 where
  pub cluster : Cluster
  pub log : LogState
  pub worker : Worker
  pub process : Process
  pub sleep_count : ℕ

-- `died` is elog(ERROR) in the worker, which ends the process.
pub data Life : Type 0 where
  alive died : Life

-- The result of a command: how its helper ended, and the message for a failure.
abbrev pub Result : Type 0
Result = Status × CString

-- What an initialisation that succeeded writes.
unfoldable pub init_worker : Status → Command → Worker → Worker
init_worker ok c w = record w {
  node_id = c.node_id;
  address = copy_text 255 c.address;
  port = c.port;
  status = running;
}
init_worker s c w = w

-- `COMMAND_INIT`
unfoldable pub run_init : World → Command → System → Result × System
run_init world c y =
    let (s, cluster, process) = init_system world c.node_id c.address c.port y.cluster y.process in
    (
      (s, bytes "Failed to initialize pgraft system"),
      record y { cluster = cluster; process = process; worker = init_worker s c y.worker },
    )

-- `COMMAND_ADD_NODE`
unfoldable pub run_add_node : World → Command → System → Result × System
run_add_node world c y =
    let (s, cluster) = add_node_system world c.node_id c.address c.port y.cluster y.process in
    (
      (s, bytes "Failed to add node " ++ (decimal32 c.node_id ++ bytes " to pgraft system")),
      record y { cluster = cluster },
    )

-- `COMMAND_REMOVE_NODE`
unfoldable pub run_remove_node : World → Command → System → Result × System
run_remove_node world c y =
    let (s, cluster) = remove_node_system world c.node_id y.cluster y.process in
    (
      (s, bytes "Failed to remove node " ++ (decimal32 c.node_id ++ bytes " from pgraft system")),
      record y { cluster = cluster },
    )

-- `COMMAND_LOG_APPEND`
unfoldable pub run_log_append : World → Command → System → Result × System
run_log_append world c y =
    let (s, log) = log_append_system world c.log_data c.log_index y.log in
    (
      (s, bytes "Failed to append log entry at index " ++ decimal32 c.log_index),
      record y { log = log },
    )

-- `COMMAND_LOG_COMMIT`
unfoldable pub run_log_commit : Command → System → Result × System
run_log_commit c y =
    let (s, log) = log_commit_system c.log_index y.log in
    (
      (s, bytes "Failed to commit log entry at index " ++ decimal32 c.log_index),
      record y { log = log },
    )

-- `COMMAND_LOG_APPLY`
unfoldable pub run_log_apply : Command → System → Result × System
run_log_apply c y =
    let (s, log) = log_apply_system c.log_index y.log in
    (
      (s, bytes "Failed to apply log entry at index " ++ decimal32 c.log_index),
      record y { log = log },
    )

-- The operation's name in the messages.
abbrev verb : OpType → CString
verb OpType.kv_put = bytes "PUT"
verb OpType.kv_delete = bytes "DELETE"
verb OpType.kv_get = bytes "GET"

-- What `pgraft_go_append_log` returned.
unfoldable pub appended_kv : OpType → Option ℕ → Result
appended_kv op none = (raised, [])
appended_kv op (some result) =
    if lt32 result 0
    then (
      fail,
      bytes "Failed to replicate KV "
          ++ (verb op
              ++ (bytes " operation through Raft (result=" ++ (decimal32 result ++ bytes ")"))),
    )
    else (ok, [])

-- `COMMAND_KV_PUT` and `COMMAND_KV_DELETE`, with the buffer of 2048 bytes.
unfoldable pub run_kv : JsonC → World → OpType → Option CString → Command → Process → Result
run_kv lib world op value c p =
    if go_is_loaded p
    then elim (create_kv_operation lib op c.kv_key value c.kv_client_id world.timestamp 2048) [
      | none ↦ (raised, [])
      | some json_data ↦ appended_kv op (go_append_log world.go json_data (length json_data) p)
    ]
    else (fail, bytes "Go layer not loaded, cannot replicate KV operation")

-- `COMMAND_SHUTDOWN`
unfoldable pub run_shutdown : System → Result × System
run_shutdown y = ((ok, []), record y { worker = record y.worker { status = stopped } })

-- The switch. The default case is for no value of the enumeration.
unfoldable pub run_command : JsonC → World → CommandType → Command → System → Result × System
run_command lib world init c y = run_init world c y
run_command lib world add_node c y = run_add_node world c y
run_command lib world remove_node c y = run_remove_node world c y
run_command lib world log_append c y = run_log_append world c y
run_command lib world log_commit c y = run_log_commit c y
run_command lib world log_apply c y = run_log_apply c y
run_command lib world shutdown c y = run_shutdown y
run_command lib world kv_put c y = (run_kv lib world OpType.kv_put (some c.kv_value) c y.process, y)
run_command lib world kv_delete c y = (run_kv lib world OpType.kv_delete none c y.process, y)

-- The update behind each case. An error leaves the loop before it; `fault` is undefined.
unfoldable pub settle : Command → Result × System → Life × System
settle c ((ok, message), y) = (
  alive,
  record y {
    worker = (update_command_status c.timestamp completed (some c.error_message) y.worker).1;
  },
)
settle c ((fail, message), y) = (
  alive,
  record y {
    worker = (update_command_status c.timestamp failed (some (copy_text 511 message)) y.worker).1;
  },
)
settle c ((raised, message), y) = (died, y)
settle c ((fault, message), y) = (died, y)

unfoldable pub process_command : JsonC → World → Option Command × Worker → System → Life × System
process_command lib world (none, w) y = (alive, record y { worker = w })
process_command lib world (some c, w) y =
    settle c (run_command lib world c.type c (record y { worker = add_command_to_status c w }))

-- `sleep_count % 5 == 0 && pgraft_go_is_loaded()`. The tick and the heartbeat are calls of Go that
-- leave nothing here.
unfoldable pub refresh : World → System → System
refresh world y =
    if y.sleep_count % 5 == 0 && go_is_loaded y.process
    then (let (c, w) = update_from_go world.go_view y.cluster y.worker in
        record y { cluster = c; worker = w })
    else y

-- `sleep_count++`, and 0 again from 10 on.
unfoldable pub tick_count : ℕ → ℕ
tick_count n = if leb 10 (n + 1) then 0 else n + 1

unfoldable pub slept : Life × System → Life × System
slept (alive, y) = (alive, record y { sleep_count = tick_count y.sleep_count })
slept (died, y) = (died, y)

unfoldable pub iterate : JsonC → World → System → Life × System
iterate lib world y =
    let y' = refresh world y in slept (process_command lib world (dequeue_command y'.worker) y')

abbrev pub is_stopped : WorkerStatus → Bool
is_stopped WorkerStatus.idle = false
is_stopped WorkerStatus.initializing = false
is_stopped WorkerStatus.running = false
is_stopped WorkerStatus.stopping = false
is_stopped WorkerStatus.stopped = true

-- What `pgraft_main` writes into the worker's state before the loop; `name` is the setting.
unfoldable pub start_worker : Option CString → Worker → Worker
start_worker name w = record w {
  node_id = 0;
  address = copy_text 255 (elim name [ none ↦ bytes "unknown" | some n ↦ n ]);
  port = 0;
  status = running;
}

-- The loop for a number of rounds, with what the surroundings do in each.
unfoldable pub rounds : JsonC → ℕ → (ℕ → World) → System → Life × System
rounds lib zero world y = (alive, y)
rounds lib (suc n) world y =
    if is_stopped y.worker.status
    then (alive, y)
    else (let (life, y') = iterate lib (world n) y in
        elim life [ alive ↦ rounds lib n world y' | died ↦ (died, y') ])
