-- ===== src/Worker/Fifo.antt =====
-- The command queue of src/pgraft_util.c against a bounded FIFO of messages.
use pgraft.Base.{
  ℕ, ◌≡◌, Bool, true, false, Option, none, some, List, [], ◌∷◌, ◌++◌, map, length, ltb,
  if◌then◌else◌, CString,
}
use pgraft.Ring.Laws.{IsValid, contents}
use pgraft.Worker.State.{
  CommandType, init, add_node, remove_node, log_append, log_commit, log_apply, shutdown, kv_put,
  kv_delete, CommandStatus, pending, Command, no_command, max_commands, Worker,
}
use pgraft.Worker.Queue.{
  field_text, queue_command, queue_log_command, queue_kv_command, dequeue_command,
}

-- What the worker reads of a command, by its type.
pub data Message : Type 0 where
  node_message : CommandType → ℕ → CString → ℕ → CString → CommandStatus → ℕ → Message
  log_message : CommandType → CString → ℕ → CommandStatus → ℕ → Message
  kv_message : CommandType → CString → CString → CString → CommandStatus → ℕ → Message

pub data Kind : Type 0 where
  about_node about_log about_kv : Kind

abbrev pub kind : CommandType → Kind
kind init = about_node
kind add_node = about_node
kind remove_node = about_node
kind shutdown = about_node
kind log_append = about_log
kind log_commit = about_log
kind log_apply = about_log
kind kv_put = about_kv
kind kv_delete = about_kv

unfoldable pub read_as : Kind → Command → Message
read_as about_node c =
    node_message c.type c.node_id c.address c.port c.cluster_id c.status c.timestamp
read_as about_log c = log_message c.type c.log_data c.log_index c.status c.timestamp
read_as about_kv c = kv_message c.type c.kv_key c.kv_value c.kv_client_id c.status c.timestamp

unfoldable pub message : Command → Message
message c = read_as (kind c.type) c

-- The calls of the backends and of the worker, each submission with the time of it.
pub data Request : Type 0 where
  submit_node : CommandType → ℕ → Option CString → ℕ → Option CString → ℕ → Request
  submit_log : CommandType → Option CString → ℕ → ℕ → Request
  submit_kv : CommandType → Option CString → Option CString → Option CString → ℕ → Request
  take_next : Request

pub data Reply : Type 0 where
  accepted refused nothing : Reply
  taken : Message → Reply

-- Each submission is made with a type of its own kind, as all callers do.
abbrev pub IsProper : Request → Type 0
IsProper (submit_node t node_id address port cluster_id now) = kind t ≡ about_node
IsProper (submit_log t log_data log_index now) = kind t ≡ about_log
IsProper (submit_kv t key value client_id now) = kind t ≡ about_kv
IsProper take_next = Unit

abbrev pub AllProper : List Request → Type 0
AllProper [] = Unit
AllProper (q ∷ qs) = IsProper q × AllProper qs

unfoldable pub submitted : Bool × Worker → Reply × Worker
submitted (true, w) = (accepted, w)
submitted (false, w) = (refused, w)

unfoldable pub took : Option Command × Worker → Reply × Worker
took (none, w) = (nothing, w)
took (some c, w) = (taken (message c), w)

unfoldable pub serve : Request → Worker → Reply × Worker
serve (submit_node t node_id address port cluster_id now) w =
    submitted (queue_command t node_id address port cluster_id now w)
serve (submit_log t log_data log_index now) w =
    submitted (queue_log_command t log_data log_index now w)
serve (submit_kv t key value client_id now) w =
    submitted (queue_kv_command t key value client_id now w)
serve take_next w = took (dequeue_command w)

unfoldable pub serve_all : List Request → Worker → List Reply
serve_all [] w = []
serve_all (q ∷ qs) w = let (r, w') = serve q w in r ∷ serve_all qs w'

-- The specification: a FIFO of at most 100 messages.
abbrev pub offer : Message → List Message → Reply × List Message
offer m queue =
    if ltb (length queue) max_commands then (accepted, queue ++ (m ∷ [])) else (refused, queue)

unfoldable pub fifo : Request → List Message → Reply × List Message
fifo (submit_node t node_id address port cluster_id now) queue =
    offer
      (node_message t node_id (field_text 256 address) port (field_text 256 cluster_id) pending now)
      queue
fifo (submit_log t log_data log_index now) queue =
    offer (log_message t (field_text 1024 log_data) log_index pending now) queue
fifo (submit_kv t key value client_id now) queue =
    offer
      (kv_message t (field_text 256 key) (field_text 1024 value) (field_text 64 client_id) pending
        now)
      queue
fifo take_next [] = (nothing, [])
fifo take_next (m ∷ queue) = (taken m, queue)

unfoldable pub fifo_all : List Request → List Message → List Reply
fifo_all [] queue = []
fifo_all (q ∷ qs) queue = let (r, queue') = fifo q queue in r ∷ fifo_all qs queue'

-- What the queue holds.
abbrev pub queued : Worker → List Message
queued w = map message (contents max_commands no_command w.commands)

abbrev pub IsQueue : Worker → Type 0
IsQueue w = IsValid max_commands w.commands
