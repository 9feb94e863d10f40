-- ===== src/Sql/Nodes.antt =====
-- The functions of src/pgraft_sql.c on nodes, on the leader and on the log's commands.
use pgraft.Base.{
  ℕ, Bool, true, false, not, ◌||◌, Option, none, some, ◌==◌, if◌then◌else◌, length, lt32, lt64,
  widen, narrow, CString, Status, ok,
}
use pgraft.Core.Cluster.{Cluster, core_get_cluster_state, core_remove_node}
use pgraft.Worker.State.{Worker, log_append, log_commit, log_apply}
use pgraft.Worker.Queue.{queue_log_command}
use pgraft.Golib.Loader.{Process}
use pgraft.Golib.Calls.{Answers, go_is_loaded, go_is_leader}
use pgraft.Sql.Keys.{Reply, datum, error}

-- A test of the function that leaves it with elog(ERROR).
abbrev pub refuse : Bool → Reply ℕ → Reply ℕ
refuse true rest = error
refuse false rest = rest

-- The function calls Go itself; the worker is not asked.
unfoldable pub add_node_sql : Answers → ℕ → CString → ℕ → Process → Reply ℕ
add_node_sql go node_id address port p = refuse (lt32 node_id 1 || lt32 1000 node_id) (
    refuse (length address == 0) (
      refuse (lt32 port 1024 || lt32 65535 port) (
        refuse (not (go_is_loaded p)) (
          refuse (lt32 (go_is_leader go p) 0) (
            refuse (go_is_leader go p == 0) (
              refuse (not p.pointers.add_peer)
                (refuse (not (go.add_peer 0 node_id address port == 0)) (datum 0))))))))

-- Go is asked once the node is gone from the cluster record, which keeps no copy.
unfoldable pub removed_then : Answers → ℕ → Process → Status × Cluster → Reply ℕ × Cluster
removed_then go node_id p (ok, c) =
    if go_is_loaded p
    then if p.pointers.remove_peer
      then (refuse (not (go.remove_peer node_id == 0)) (datum 0), c)
      else (datum 0, c)
    else (datum 0, c)
removed_then go node_id p (s, c) = (error, c)

unfoldable pub remove_node_sql : Answers → ℕ → Process → Cluster → Reply ℕ × Cluster
remove_node_sql go node_id p c = removed_then go node_id p (core_remove_node node_id c)

-- The leader in shared memory, or else in the state file; `file` is the leader that the file names,
-- also where the rest of it cannot be read.
unfoldable pub leader_or : Status × Option Cluster → Option ℕ → ℕ
leader_or (ok, some c) file =
    if lt64 0 c.leader_id then c.leader_id else elim file [ none ↦ 0 | some leader_id ↦ leader_id ]
leader_or (s, c) file = elim file [ none ↦ 0 | some leader_id ↦ leader_id ]

unfoldable pub get_leader_sql : Cluster → Option ℕ → ℕ
get_leader_sql c file = leader_or (core_get_cluster_state true c) file

unfoldable pub term_of : Status × Option Cluster → ℕ
term_of (ok, some c) = c.current_term
term_of (s, c) = 0

unfoldable pub get_term_sql : Cluster → ℕ
get_term_sql c = term_of (core_get_cluster_state true c)

-- `cluster_state.leader_id == (int64_t) worker_state->node_id`
unfoldable pub leads_as : Status × Option Cluster → Worker → Bool
leads_as (ok, some c) w = c.leader_id == widen w.node_id
leads_as (s, c) w = false

unfoldable pub is_leader_sql : Cluster → Worker → Bool
is_leader_sql c w = leads_as (core_get_cluster_state true c) w

abbrev pub queued_or_error : Bool × Worker → Reply ℕ × Worker
queued_or_error (true, w) = (datum 0, w)
queued_or_error (false, w) = (error, w)

-- The term travels in the field of the index, cut to an `int`.
unfoldable pub log_append_sql : ℕ → CString → ℕ → Worker → Reply ℕ × Worker
log_append_sql term log_data now w =
    queued_or_error (queue_log_command log_append (some log_data) (narrow term) now w)

unfoldable pub log_commit_sql : ℕ → ℕ → Worker → Reply ℕ × Worker
log_commit_sql index now w =
    queued_or_error (queue_log_command log_commit none (narrow index) now w)

unfoldable pub log_apply_sql : ℕ → ℕ → Worker → Reply ℕ × Worker
log_apply_sql index now w = queued_or_error (queue_log_command log_apply none (narrow index) now w)
