-- ===== src/Replicate/Write.antt =====
-- A write on its way into Raft: `pgraft_kv_replicate_put`, `pgraft_kv_replicate_delete` and
-- `pgraft_kv_queue_operation` of src/pgraft_kv.c, with `pgraft_update_shared_memory_from_go` of
-- src/pgraft.c.
use pgraft.Base.{
  ℕ, Bool, true, false, ◌&&◌, Option, none, some, List, [], ◌∷◌, ◌==◌, if◌then◌else◌, lt64, widen,
  narrow, CString, bytes, Status, ok, raised,
}
use pgraft.Core.Cluster.{Cluster, core_update_nodes}
use pgraft.Worker.State.{Worker, kv_put, kv_delete}
use pgraft.Worker.Queue.{queue_kv_command}
use pgraft.Kv.Service.{OpType}

-- What the functions of the Go library answer: the leader, the term, this node, and the nodes
-- that json-c parses from its list (none where there is no list or none in it).
pub record GoView : Type 0 where
  pub leader : ℕ
  pub term : ℕ
  pub go_node_id : ℕ
  pub peers : List (ℕ × CString)

-- `node_count > 0`; the result of the update is not read.
unfoldable pub with_peers : List (ℕ × CString) → Cluster → Cluster
with_peers [] c = c
with_peers (p ∷ peers) c = (core_update_nodes (p ∷ peers) c).1

-- `go_node_id > 0`, with the conversion to `int32_t`.
abbrev pub known_id : ℕ → ℕ → ℕ
known_id go_node_id old = if lt64 0 go_node_id then narrow go_node_id else old

-- The state file that it writes is not read here. `none` where the library is not loaded.
unfoldable pub update_from_go : Option GoView → Cluster → Worker → Cluster × Worker
update_from_go none c w = (c, w)
update_from_go (some g) c w =
    let c' = with_peers g.peers c in
    let worker_id = known_id g.go_node_id w.node_id in
    (
      record c' {
        leader_id = g.leader;
        current_term = g.term;
        initialized = true;
        node_id = known_id g.go_node_id c'.node_id;
        state =
            if lt64 0 g.leader && (g.leader == widen worker_id)
            then bytes "leader"
            else bytes "follower";
      },
      record w { node_id = worker_id },
    )

-- `elog(ERROR)` where the queue is full.
unfoldable pub queued_or_raised : Cluster → Bool × Worker → Status × Cluster × Worker
queued_or_raised c (true, w) = (ok, c, w)
queued_or_raised c (false, w) = (raised, c, w)

unfoldable pub queue_as :
    OpType
    → Option CString
    → Option CString
    → Option CString
    → ℕ
    → Cluster
    → Worker
    → Status × Cluster × Worker
queue_as OpType.kv_put key value client_id now c w =
    queued_or_raised c (queue_kv_command kv_put key value client_id now w)
queue_as OpType.kv_delete key value client_id now c w =
    queued_or_raised c (queue_kv_command kv_delete key value client_id now w)
queue_as OpType.kv_get key value client_id now c w = (raised, c, w)

unfoldable pub queue_operation :
    Option GoView
    → OpType
    → Option CString
    → Option CString
    → Option CString
    → ℕ
    → Cluster
    → Worker
    → Status × Cluster × Worker
queue_operation go op_type key value client_id now c w =
    let (c', w') = update_from_go go c w in
    if widen c'.node_id == c'.leader_id
    then queue_as op_type key value client_id now c' w'
    else (raised, c', w')

-- The first argument tells whether `pgraft_json_create_kv_operation` made a text that fits.
unfoldable pub replicate_put :
    Bool
    → Option GoView
    → Option CString
    → Option CString
    → Option CString
    → ℕ
    → Cluster
    → Worker
    → Status × Cluster × Worker
replicate_put false go key value client_id now c w = (raised, c, w)
replicate_put true go key value client_id now c w =
    queue_operation go OpType.kv_put key value client_id now c w

unfoldable pub replicate_delete :
    Bool
    → Option GoView
    → Option CString
    → Option CString
    → ℕ
    → Cluster
    → Worker
    → Status × Cluster × Worker
replicate_delete false go key client_id now c w = (raised, c, w)
replicate_delete true go key client_id now c w =
    queue_operation go OpType.kv_delete key none client_id now c w
