-- ===== src/Worker/State.antt =====
-- `pgraft_worker_state_t` and the structures in it, of include/pgraft_core.h.
-- An `int` that is only stored and copied is the number of its bits.
use pgraft.Base.{ℕ, Bool, false, List, [], replicate, CString, bytes}
use pgraft.Ring.{Ring}

pub data WorkerStatus : Type 0 where
  idle initializing running stopping stopped : WorkerStatus

pub data CommandType : Type 0 where
  init add_node remove_node log_append log_commit log_apply shutdown kv_put kv_delete : CommandType

pub data CommandStatus : Type 0 where
  pending processing completed failed : CommandStatus

pub record Command : Type 0 where
  pub type : CommandType
  pub node_id : ℕ
  pub address : CString
  pub port : ℕ
  pub cluster_id : CString
  pub log_data : CString
  pub log_index : ℕ
  pub kv_key : CString
  pub kv_value : CString
  pub kv_client_id : CString
  pub status : CommandStatus
  pub error_message : CString
  pub timestamp : ℕ

-- What a slot reads as where the model reads outside the array, which the invariants rule out.
abbrev pub no_command : Command
no_command = record {
  type = init;
  node_id = 0;
  address = [];
  port = 0;
  cluster_id = [];
  log_data = [];
  log_index = 0;
  kv_key = [];
  kv_value = [];
  kv_client_id = [];
  status = pending;
  error_message = [];
  timestamp = 0;
}

-- The first `data_len` bytes of `data` are what an entry carries.
pub record ApplyEntry : Type 0 where
  pub raft_index : ℕ
  pub payload : List ℕ
  pub data_len : ℕ
  pub applied : Bool

abbrev pub no_entry : ApplyEntry
no_entry = record { raft_index = 0; payload = []; data_len = 0; applied = false }

abbrev pub max_commands : ℕ
max_commands = 100

abbrev pub max_apply_entries : ℕ
max_apply_entries = 1000

pub record Worker : Type 0 where
  pub node_id : ℕ
  pub address : CString
  pub port : ℕ
  pub status : WorkerStatus
  pub commands : Ring Command
  pub status_commands : Ring Command
  pub apply_queue : Ring ApplyEntry
  pub last_applied_index : ℕ

-- New shared memory as `pgraft_worker_get_state` of src/pgraft.c leaves it. It sets neither the
-- slots nor the apply queue: those are the zeros of fresh shared memory.
unfoldable pub fresh_worker : Worker
fresh_worker = record {
  node_id = 0;
  address = bytes "127.0.0.1";
  port = 0;
  status = stopped;
  commands = record { slots = replicate max_commands no_command; head = 0; tail = 0; count = 0 };
  status_commands = record {
    slots = replicate max_commands no_command;
    head = 0;
    tail = 0;
    count = 0;
  };
  apply_queue = record {
    slots = replicate max_apply_entries no_entry;
    head = 0;
    tail = 0;
    count = 0;
  };
  last_applied_index = 0;
}
