-- ===== src/Core/Tests.antt =====
-- The theorems on the cluster record at concrete clusters.
use pgraft.Base.{
  ℕ, List, [], ◌∷◌, map, take, CString, ◌≡◌, refl, true, none, if◌then◌else◌, ok, fail, bytes,
}
use pgraft.Core.Cluster.{
  Cluster, members, init_cluster_memory, core_init, core_add_node, core_remove_node,
  core_update_nodes, max_nodes,
}
use pgraft.Core.Members.{IsBounded, without, has_member, remove-members}
use pgraft.Core.Updates.{listed, update_nodes-members}
use pgraft.Core.Run.{
  CoreReach, start, onward, initialises, adds, new-IsBounded, CoreReach-IsBounded,
}

abbrev one_node : Cluster
one_node = (core_init 1 (bytes "10.0.0.1") 7001 (init_cluster_memory none)).1

abbrev two_nodes : Cluster
two_nodes = (core_add_node 2 (bytes "10.0.0.2") 7002 one_node).1

to_two : CoreReach (init_cluster_memory none) two_nodes
to_two =
    onward (onward start (initialises 1 (bytes "10.0.0.1") 7001)) (adds 2 (bytes "10.0.0.2") 7002)

CoreReach-IsBounded_example : IsBounded two_nodes
CoreReach-IsBounded_example = CoreReach-IsBounded to_two new-IsBounded

one-IsBounded : IsBounded one_node
one-IsBounded =
    CoreReach-IsBounded (onward start (initialises 1 (bytes "10.0.0.1") 7001)) new-IsBounded

two-IsBounded : IsBounded two_nodes
two-IsBounded = CoreReach-IsBounded to_two new-IsBounded

one_live : one_node.initialized ≡ true
unfolding core_init init_cluster_memory
one_live = refl

two_live : two_nodes.initialized ≡ true
unfolding core_add_node core_init init_cluster_memory
two_live = refl

remove-members_example :
    ((core_remove_node 1 two_nodes).0 ≡ (if has_member 1 (members two_nodes) then ok else fail))
    × (members (core_remove_node 1 two_nodes).1 ≡ without 1 (members two_nodes))
    × IsBounded (core_remove_node 1 two_nodes).1
remove-members_example = remove-members 1 two_nodes two-IsBounded two_live

abbrev listing : List (ℕ × CString)
listing = (3, bytes "10.0.0.3:7003") ∷ (1, bytes "10.0.0.1:7001") ∷ []

update_nodes-members_example :
    ((core_update_nodes listing two_nodes).0 ≡ ok)
    × (members (core_update_nodes listing two_nodes).1 ≡ map listed (take max_nodes listing))
    × IsBounded (core_update_nodes listing two_nodes).1
update_nodes-members_example = update_nodes-members listing two_nodes two_live
