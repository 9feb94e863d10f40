-- ===== src/Sql/Leads.antt =====
-- Who leads, by src/pgraft_sql.c and by src/pgraft_core.c.
use pgraft.Base.{ℕ, ◌≡◌, refl, inl, inr, true, Bool-cases, ◌==◌, widen, if◌then◌else◌, arith}
use pgraft.Core.Cluster.{Cluster, core_get_cluster_state, core_is_leader}
use pgraft.Worker.State.{Worker}
use pgraft.Sql.Nodes.{leads_as, is_leader_sql}

==_comm : (a b : ℕ) → (a == b) ≡ (b == a)
==_comm a b = ground arith

-- Where the worker knows the node of an initialised cluster by the identifier that the cluster record
-- has, the SQL function answers for an initialised cluster as the core does. For a cluster that is not
-- initialised it answers whether the worker's node identifier is 0, as it is in new shared memory.
pub is_leader_sql-core :
    (c : Cluster) (w : Worker)
    → (c.initialized ≡ true → w.node_id ≡ c.node_id)
    → is_leader_sql c w ≡ (if c.initialized then core_is_leader c else 0 == widen w.node_id)
unfolding is_leader_sql core_get_cluster_state core_is_leader leads_as
is_leader_sql-core c w same = elim (Bool-cases c.initialized) [
  | inl live ↦
      rw (is_leader_sql, core_get_cluster_state, leads_as, core_is_leader, live, same live)
        (==_comm c.leader_id (widen c.node_id))
  | inr dead ↦ rw (is_leader_sql, core_get_cluster_state, leads_as, dead) refl
]
