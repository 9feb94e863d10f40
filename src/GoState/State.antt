-- ===== src/GoState/State.antt =====
-- include/pgraft_state.h and the functions of src/pgraft_state.c: what the extension keeps of the
-- Go library in shared memory. An `int32_t` is its 32 bits, an `int64_t` its 64. The flags are
-- `int32_t` fields that only ever hold 0 or 1. The pointer is never NULL.
use pgraft.Base.{
  ℕ, zero, suc, ◌+◌, ◌-◌, Bool, true, false, Option, none, some, List, [], if◌then◌else◌, lt32,
  get_or, set, replicate, two32, CString, copy_text, bytes, Status, ok, raised,
}

-- The elements at one index of `node_ids`, `node_addresses` and `node_ports`.
pub record NodeSlot : Type 0 where
  pub id : ℕ
  pub address : CString
  pub port : ℕ

abbrev pub blank_slot : NodeSlot
blank_slot = record { id = 0; address = []; port = 0 }

abbrev pub node_slots : ℕ
node_slots = 16

pub record GoState : Type 0 where
  pub go_lib_loaded : Bool
  pub go_initialized : Bool
  pub go_running : Bool
  pub go_node_id : ℕ
  pub go_address : CString
  pub go_port : ℕ
  pub go_current_term : ℕ
  pub go_voted_for : ℕ
  pub go_commit_index : ℕ
  pub go_last_applied : ℕ
  pub go_last_index : ℕ
  pub go_leader_id : ℕ
  pub go_raft_state : CString
  pub num_nodes : ℕ
  pub nodes : List NodeSlot
  pub go_messages_processed : ℕ
  pub go_log_entries_committed : ℕ
  pub go_heartbeats_sent : ℕ
  pub go_elections_triggered : ℕ

-- The argument is the structure of another process, or `none` where `found` comes back false.
unfoldable pub init_go_state : Option GoState → GoState
init_go_state (some st) = st
init_go_state none = record {
  go_lib_loaded = false;
  go_initialized = false;
  go_running = false;
  go_node_id = two32 - 1;
  go_address = [];
  go_port = two32 - 1;
  go_current_term = 0;
  go_voted_for = 0;
  go_commit_index = 0;
  go_last_applied = 0;
  go_last_index = 0;
  go_leader_id = 0;
  go_raft_state = bytes "unknown";
  num_nodes = 0;
  nodes = replicate node_slots blank_slot;
  go_messages_processed = 0;
  go_log_entries_committed = 0;
  go_heartbeats_sent = 0;
  go_elections_triggered = 0;
}

-- The first keeps nothing but the three flags, and the second neither.
unfoldable pub save_go_library_state : GoState → GoState
save_go_library_state st = record st {
  go_lib_loaded = true;
  go_initialized = true;
  go_running = true;
}

unfoldable pub save_go_raft_state : GoState → GoState
save_go_raft_state st = record st { go_lib_loaded = true; go_initialized = true; go_running = true }

-- A null address is stored as the empty text.
unfoldable pub save_node_config : ℕ → Option CString → ℕ → GoState → GoState
save_node_config node_id address port st = record st {
  go_node_id = node_id;
  go_address = elim address [ none ↦ [] | some a ↦ copy_text 255 a ];
  go_port = port;
}

-- `wanted` is false where one of the output arguments is NULL.
unfoldable pub restore_node_config : Bool → GoState → Status × Option (ℕ × CString × ℕ)
restore_node_config false st = (raised, none)
restore_node_config true st = (ok, some (st.go_node_id, copy_text 255 st.go_address, st.go_port))

-- `i < num_nodes && i < 16`, as the number of rounds from 0.
unfoldable pub rounds_of : ℕ → ℕ
rounds_of num_nodes =
    if lt32 num_nodes node_slots then if lt32 0 num_nodes then num_nodes else 0 else node_slots

unfoldable pub save_slots : ℕ → ℕ → List NodeSlot → List NodeSlot → List NodeSlot
save_slots zero i given nodes = nodes
save_slots (suc rounds) i given nodes =
    let n = get_or given i blank_slot in
    save_slots rounds (i + 1) given
      (set nodes i (record { id = n.id; address = copy_text 255 n.address; port = n.port }))

-- `given` holds what the three arrays passed hold, each as long as the loop reads it.
unfoldable pub save_cluster_nodes : ℕ → List NodeSlot → GoState → GoState
save_cluster_nodes num_nodes given st = record st {
  num_nodes = num_nodes;
  nodes = save_slots (rounds_of num_nodes) 0 given st.nodes;
}

-- The same loop the other way: `out` is what the caller's arrays hold before.
unfoldable pub restore_cluster_nodes :
    Bool → List NodeSlot → GoState → Status × Option (ℕ × List NodeSlot)
restore_cluster_nodes false out st = (raised, none)
restore_cluster_nodes true out st =
    (ok, some (st.num_nodes, save_slots (rounds_of st.num_nodes) 0 st.nodes out))

unfoldable pub is_go_lib_loaded : GoState → Bool
is_go_lib_loaded st = st.go_lib_loaded

unfoldable pub is_go_initialized : GoState → Bool
is_go_initialized st = st.go_initialized

unfoldable pub is_go_running : GoState → Bool
is_go_running st = st.go_running

unfoldable pub set_go_lib_loaded : Bool → GoState → GoState
set_go_lib_loaded loaded st = record st { go_lib_loaded = loaded }

unfoldable pub set_go_initialized : Bool → GoState → GoState
set_go_initialized initialized st = record st { go_initialized = initialized }

unfoldable pub set_go_running : Bool → GoState → GoState
set_go_running running st = record st { go_running = running }
