-- ===== src/Core/Cluster.antt =====
-- The cluster record of include/pgraft_core.h and the functions of src/pgraft_core.c on it. An
-- `int32_t` is its 32 bits, an `int64_t` its 64. The spinlock is left out: each function holds it.
-- The pointer is never NULL, since `ShmemInitStruct` is not.
use pgraft.Base.{
  ℕ, zero, suc, ◌+◌, ◌-◌, Bool, true, false, not, Option, none, some, List, [], ◌∷◌, leb, ◌==◌,
  if◌then◌else◌, get_or, set, take, replicate, find_index, shift_down, minus_one, two32, widen,
  narrow, CString, copy_text, bytes, Status, ok, fail, raised,
}

pub record Node : Type 0 where
  pub id : ℕ
  pub address : CString
  pub port : ℕ
  pub is_leader : Bool

abbrev pub blank_node : Node
blank_node = record { id = 0; address = []; port = 0; is_leader = false }

abbrev pub max_nodes : ℕ
max_nodes = 16

pub record Cluster : Type 0 where
  pub initialized : Bool
  pub node_id : ℕ
  pub current_term : ℕ
  pub leader_id : ℕ
  pub state : CString
  pub num_nodes : ℕ
  pub nodes : List Node
  pub messages_processed : ℕ
  pub heartbeats_sent : ℕ
  pub elections_triggered : ℕ

-- All bytes zero: fresh shared memory, and what `memset` leaves.
abbrev pub zero_cluster : Cluster
zero_cluster = record {
  initialized = false;
  node_id = 0;
  current_term = 0;
  leader_id = 0;
  state = [];
  num_nodes = 0;
  nodes = replicate max_nodes blank_node;
  messages_processed = 0;
  heartbeats_sent = 0;
  elections_triggered = 0;
}

-- `pgraft_core_init_shared_memory` where `ShmemInitStruct` reports that it made the structure, or
-- that it found the one given.
unfoldable pub init_cluster_memory : Option Cluster → Cluster
init_cluster_memory (some c) = c
init_cluster_memory none = record zero_cluster {
  node_id = two32 - 1;
  leader_id = minus_one;
  state = bytes "stopped";
}

-- `pgraft_core_get_shared_memory` at its first call. Where it made the structure, the call of
-- `pgraft_core_init_shared_memory` finds it made, and leaves it as it is.
unfoldable pub first_access : Option Cluster → Cluster
first_access (some c) = c
first_access none = init_cluster_memory (some zero_cluster)

unfoldable pub core_init : ℕ → CString → ℕ → Cluster → Status × Cluster
core_init node_id address port c = if c.initialized then (ok, c) else (
  ok,
  record c {
    initialized = true;
    node_id = node_id;
    current_term = 0;
    leader_id = minus_one;
    state = bytes "follower";
    num_nodes = 1;
    nodes =
        set c.nodes 0 (record {
          id = node_id;
          address = copy_text 255 address;
          port = port;
          is_leader = false;
        });
    messages_processed = 0;
    heartbeats_sent = 0;
    elections_triggered = 0;
  },
)

unfoldable pub core_add_node : ℕ → CString → ℕ → Cluster → Status × Cluster
core_add_node node_id address port c =
    if not c.initialized then (raised, c) else if leb max_nodes c.num_nodes then (raised, c) else (
      ok,
      record c {
        nodes = set c.nodes c.num_nodes (record {
          id = node_id;
          address = copy_text 255 address;
          port = port;
          is_leader = false;
        });
        num_nodes = c.num_nodes + 1;
      },
    )

-- The nodes that the loops visit, `i < num_nodes`.
abbrev pub members : Cluster → List Node
members c = take c.num_nodes c.nodes

unfoldable pub has_id : ℕ → Node → Bool
has_id node_id n = n.id == node_id

unfoldable pub remove_found : Cluster → Option ℕ → Status × Cluster
remove_found c none = (fail, c)
remove_found c (some i) = (
  ok,
  record c {
    nodes = shift_down blank_node (c.num_nodes - 1 - i) i c.nodes;
    num_nodes = c.num_nodes - 1;
  },
)

unfoldable pub core_remove_node : ℕ → Cluster → Status × Cluster
core_remove_node node_id c =
    if not c.initialized
    then (raised, c)
    else remove_found c (find_index (has_id node_id) (members c))

-- `wanted` is false where the caller passes NULL.
unfoldable pub core_get_cluster_state : Bool → Cluster → Status × Option Cluster
core_get_cluster_state false c = (fail, none)
core_get_cluster_state true c = (ok, some (if c.initialized then c else zero_cluster))

unfoldable pub core_is_leader : Cluster → Bool
core_is_leader c = if c.initialized then widen c.node_id == c.leader_id else false

-- The term is an `int64_t` and its field an `int32_t`. A null state leaves the one that is there.
unfoldable pub core_update_cluster_state : ℕ → ℕ → Option CString → Cluster → Status × Cluster
core_update_cluster_state leader_id current_term state c =
    if not c.initialized then (fail, c) else (
      ok,
      record c {
        leader_id = leader_id;
        current_term = narrow current_term;
        state = elim state [ none ↦ c.state | some s ↦ copy_text 31 s ];
      },
    )

-- `for (i = 0; i < num_nodes && i < 16; i++)`, over the identifiers and addresses passed.
unfoldable pub copy_nodes : ℕ → ℕ → List (ℕ × CString) → List Node → List Node × ℕ
copy_nodes zero i given nodes = (nodes, i)
copy_nodes (suc rounds) i [] nodes = (nodes, i)
copy_nodes (suc rounds) i ((node_id, address) ∷ given) nodes = copy_nodes rounds (i + 1) given (
    set nodes i
      (record (get_or nodes i blank_node) { id = node_id; address = copy_text 255 address }))

-- `given` holds the first `num_nodes` elements of the two arrays.
unfoldable pub core_update_nodes : List (ℕ × CString) → Cluster → Status × Cluster
core_update_nodes given c =
    if not c.initialized
    then (fail, c)
    else let (nodes, num_nodes) = copy_nodes max_nodes 0 given (replicate max_nodes blank_node) in
      (ok, record c { nodes = nodes; num_nodes = num_nodes })

unfoldable pub core_get_leader_id : Cluster → ℕ
core_get_leader_id c = if c.initialized then c.leader_id else minus_one

unfoldable pub core_get_current_term : Cluster → ℕ
core_get_current_term c = if c.initialized then c.current_term else 0

unfoldable pub core_cleanup : Cluster → Cluster
core_cleanup c = if c.initialized then record c { initialized = false } else c
