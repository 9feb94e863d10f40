-- ===== src/Sql/Tables.antt =====
-- The table of the nodes and the name of the worker's state, of src/pgraft_sql.c. How a row travels to
-- PostgreSQL is left out.
use pgraft.Base.{
  ℕ, Bool, true, Option, none, some, List, [], ◌==◌, map, take, widen, atoi, break_at, CString,
  bytes, Status, ok,
}
use pgraft.Core.Cluster.{Node, Cluster, max_nodes, core_get_cluster_state}
use pgraft.Worker.State.{WorkerStatus, Worker}

pub record NodeRow : Type 0 where
  pub id : ℕ
  pub host : CString
  pub port : ℕ
  pub is_leader : Bool

-- The port is what stands behind the first colon of the address, or 0; `node->port` is not read.
unfoldable pub host_and_port : CString → CString × ℕ
host_and_port address = elim (break_at 58 address) [
  | none ↦ (address, 0)
  | some (host, port) ↦ (host, atoi port)
]

unfoldable pub node_row : ℕ → Node → NodeRow
node_row leader_id node = record {
  id = node.id;
  host = (host_and_port node.address).0;
  port = (host_and_port node.address).1;
  is_leader = leader_id == widen node.id;
}

unfoldable pub rows_of : Status × Option Cluster → List NodeRow
rows_of (ok, some c) = map (node_row c.leader_id) (take max_nodes (take c.num_nodes c.nodes))
rows_of (s, c) = []

unfoldable pub get_nodes_table : Cluster → List NodeRow
get_nodes_table c = rows_of (core_get_cluster_state true c)

-- The idle state has no case of its own.
unfoldable pub get_worker_state : Worker → CString
get_worker_state w = elim w.status [
  | WorkerStatus.idle ↦ bytes "UNKNOWN"
  | WorkerStatus.initializing ↦ bytes "INITIALIZING"
  | WorkerStatus.running ↦ bytes "RUNNING"
  | WorkerStatus.stopping ↦ bytes "STOPPING"
  | WorkerStatus.stopped ↦ bytes "STOPPED"
]
