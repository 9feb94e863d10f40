-- ===== src/Worker/Queue.antt =====
-- The command queue of src/pgraft_util.c. `now` is what `time(NULL)` returns. A null text is
-- `none`. `pgraft_worker_get_state` never returns NULL, since `ShmemInitStruct` does not.
use pgraft.Base.{
  ℕ, ◌-◌, Bool, true, false, Option, none, some, [], leb, ◌==◌, if◌then◌else◌, get_or, CString,
  copy_text,
}
use pgraft.Ring.{push, advance}
use pgraft.Worker.State.{CommandType, pending, Command, no_command, max_commands, Worker}

-- The text that a field of `size` bytes gets.
abbrev pub field_text : ℕ → Option CString → CString
field_text size none = []
field_text size (some s) = copy_text (size - 1) s

-- The slot that the next command goes to.
abbrev pub next_slot : Worker → Command
next_slot w = get_or w.commands.slots w.commands.tail no_command

-- `pgraft_queue_command` leaves the slot's log and KV fields as they were.
unfoldable pub plain_command :
    CommandType → ℕ → Option CString → ℕ → Option CString → ℕ → Command → Command
plain_command type node_id address port cluster_id now old = record old {
  type = type;
  node_id = node_id;
  address = field_text 256 address;
  port = port;
  cluster_id = field_text 256 cluster_id;
  status = pending;
  error_message = [];
  timestamp = now;
}

-- `pgraft_queue_log_command` leaves the slot's KV fields as they were.
unfoldable pub log_command : CommandType → Option CString → ℕ → ℕ → Command → Command
log_command type log_data log_index now old = record old {
  type = type;
  node_id = 0;
  address = [];
  port = 0;
  cluster_id = [];
  log_data = field_text 1024 log_data;
  log_index = log_index;
  status = pending;
  error_message = [];
  timestamp = now;
}

-- `pgraft_queue_kv_command` leaves the slot's log fields as they were.
unfoldable pub kv_command :
    CommandType → Option CString → Option CString → Option CString → ℕ → Command → Command
kv_command type key value client_id now old = record old {
  type = type;
  node_id = 0;
  address = [];
  port = 0;
  cluster_id = [];
  kv_key = field_text 256 key;
  kv_value = field_text 1024 value;
  kv_client_id = field_text 64 client_id;
  status = pending;
  error_message = [];
  timestamp = now;
}

-- What the three share: the guard, the write to the slot, and the moves of the pointers.
unfoldable pub enqueue : (Command → Command) → Worker → Bool × Worker
enqueue fill w =
    if leb max_commands w.commands.count
    then (false, w)
    else (true, record w { commands = push max_commands (fill (next_slot w)) w.commands })

unfoldable pub queue_command :
    CommandType → ℕ → Option CString → ℕ → Option CString → ℕ → Worker → Bool × Worker
queue_command type node_id address port cluster_id now w =
    enqueue (plain_command type node_id address port cluster_id now) w

unfoldable pub queue_log_command : CommandType → Option CString → ℕ → ℕ → Worker → Bool × Worker
queue_log_command type log_data log_index now w =
    enqueue (log_command type log_data log_index now) w

unfoldable pub queue_kv_command :
    CommandType → Option CString → Option CString → Option CString → ℕ → Worker → Bool × Worker
queue_kv_command type key value client_id now w =
    enqueue (kv_command type key value client_id now) w

-- `none` where the queue is empty.
unfoldable pub dequeue_command : Worker → Option Command × Worker
dequeue_command w = if w.commands.count == 0 then (none, w) else (
  some (get_or w.commands.slots w.commands.head no_command),
  record w { commands = advance max_commands w.commands },
)

unfoldable pub queue_is_empty : Worker → Bool
queue_is_empty w = w.commands.count == 0
