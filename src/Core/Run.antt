-- ===== src/Core/Run.antt =====
-- Every history of the cluster record of src/pgraft_core.c.
use pgraft.Base.{
  ℕ, ◌∙◌, inl, inr, Option, none, List, length-set, length-replicate, Bool-cases, CString, arith,
}
use pgraft.Core.Cluster.{
  Cluster, blank_node, max_nodes, init_cluster_memory, core_init, core_add_node, core_remove_node,
  core_update_cluster_state, core_update_nodes, core_cleanup,
}
use pgraft.Core.Members.{IsBounded, joining, add-members, remove-members}
use pgraft.Core.Updates.{update_nodes-members}

-- One call by a backend or by the Go library. The lock makes the calls one after another.
pub data CoreStep (c : Cluster) : Cluster → Type 0 where
  initialises :
      (node_id : ℕ) (address : CString) (port : ℕ) → CoreStep c (core_init node_id address port c).1
  adds :
      (node_id : ℕ) (address : CString) (port : ℕ)
      → CoreStep c (core_add_node node_id address port c).1
  removes : (node_id : ℕ) → CoreStep c (core_remove_node node_id c).1
  updates :
      (leader_id term : ℕ) (state : Option CString)
      → CoreStep c (core_update_cluster_state leader_id term state c).1
  lists : (given : List (ℕ × CString)) → CoreStep c (core_update_nodes given c).1
  cleans : CoreStep c (core_cleanup c)

pub data CoreReach (c : Cluster) : Cluster → Type 0 where
  start : CoreReach c c
  onward : {a b : Cluster} → CoreReach c a → CoreStep a b → CoreReach c b

pub new-IsBounded : IsBounded (init_cluster_memory none)
unfolding init_cluster_memory
new-IsBounded = record { sized = length-replicate max_nodes blank_node; within = omega arith }

CoreStep-IsBounded : {c c' : Cluster} → CoreStep c c' → IsBounded c → IsBounded c'
unfolding core_init core_add_node core_remove_node core_update_cluster_state core_update_nodes
    core_cleanup
CoreStep-IsBounded {c} (initialises node_id address port) b = elim (Bool-cases c.initialized) [
  | inl live ↦ rw live (record { sized = b.sized; within = b.within })
  | inr dead ↦ rw dead (record {
    sized = length-set c.nodes 0 (joining node_id address port) ∙ b.sized;
    within = omega arith;
  })
]
CoreStep-IsBounded {c} (adds node_id address port) b = elim (Bool-cases c.initialized) [
  | inl live ↦ (add-members node_id address port c b live).2
  | inr dead ↦ rw dead (record { sized = b.sized; within = b.within })
]
CoreStep-IsBounded {c} (removes node_id) b = elim (Bool-cases c.initialized) [
  | inl live ↦ (remove-members node_id c b live).2
  | inr dead ↦ rw dead (record { sized = b.sized; within = b.within })
]
CoreStep-IsBounded {c} (updates leader_id term state) b = elim (Bool-cases c.initialized) [
  | inl live ↦ rw live (record { sized = b.sized; within = b.within })
  | inr dead ↦ rw dead (record { sized = b.sized; within = b.within })
]
CoreStep-IsBounded {c} (lists given) b = elim (Bool-cases c.initialized) [
  | inl live ↦ (update_nodes-members given c live).2
  | inr dead ↦ rw dead (record { sized = b.sized; within = b.within })
]
CoreStep-IsBounded {c} cleans b = elim (Bool-cases c.initialized) [
  | inl live ↦ rw live (record { sized = b.sized; within = b.within })
  | inr dead ↦ rw dead (record { sized = b.sized; within = b.within })
]

-- Whatever calls are made, in whatever order, from a cluster of 16 slots with at most 16 nodes,
-- the cluster keeps its 16 slots and never counts more than 16 nodes.
pub CoreReach-IsBounded : {c c' : Cluster} → CoreReach c c' → IsBounded c → IsBounded c'
CoreReach-IsBounded start b = b
CoreReach-IsBounded (onward r s) b = CoreStep-IsBounded s (CoreReach-IsBounded r b)
