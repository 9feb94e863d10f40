-- ===== src/Worker/Apply.antt =====
-- The queue of committed Raft entries of src/pgraft_util.c, between the Go library and the
-- background worker.
use pgraft.Base.{
  ℕ, Bool, true, false, Option, none, some, List, ◌++◌, take, drop, leb, ltb, ◌==◌, if◌then◌else◌,
  get_or,
}
use pgraft.Ring.{push, advance}
use pgraft.Worker.State.{ApplyEntry, no_entry, max_apply_entries, Worker}

-- `sizeof(entry->data)`.
abbrev pub max_payload : ℕ
max_payload = 4096

-- `if (data && data_len > 0) memcpy(entry->data, data, data_len);`: the bytes behind those that
-- are copied stay, and all stay where the pointer is null.
abbrev pub copy_payload : Option (List ℕ) → ℕ → List ℕ → List ℕ
copy_payload none data_len old = old
copy_payload (some input) data_len old = take data_len input ++ drop data_len old

unfoldable pub fill_entry : ℕ → Option (List ℕ) → ℕ → ApplyEntry → ApplyEntry
fill_entry raft_index input data_len old = record {
  raft_index = raft_index;
  payload = copy_payload input data_len old.payload;
  data_len = data_len;
  applied = false;
}

unfoldable pub enqueue_apply_entry : ℕ → Option (List ℕ) → ℕ → Worker → Bool × Worker
enqueue_apply_entry raft_index input data_len w =
    if leb max_apply_entries w.apply_queue.count
    then (false, w)
    else if ltb max_payload data_len
    then (false, w)
    else (
      true,
      record w {
        apply_queue =
            push max_apply_entries
              (fill_entry raft_index input data_len
                (get_or w.apply_queue.slots w.apply_queue.tail no_entry))
              w.apply_queue;
      },
    )

-- `none` where the queue is empty.
unfoldable pub dequeue_apply_entry : Worker → Option ApplyEntry × Worker
dequeue_apply_entry w = if w.apply_queue.count == 0 then (none, w) else (
  some (get_or w.apply_queue.slots w.apply_queue.head no_entry),
  record w { apply_queue = advance max_apply_entries w.apply_queue },
)

unfoldable pub apply_queue_is_empty : Worker → Bool
apply_queue_is_empty w = w.apply_queue.count == 0

unfoldable pub get_apply_queue_count : Worker → ℕ
get_apply_queue_count w = w.apply_queue.count
