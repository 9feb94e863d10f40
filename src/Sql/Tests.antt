-- ===== src/Sql/Tests.antt =====
-- Calls of the SQL functions.
use pgraft.Base.{
  ◌≡◌, ◌<◌, refl, ◌==◌, widen, copy_text, true, false, ◌&&◌, none, some, [], ◌∷◌, ◌++◌,
  if◌then◌else◌, length, length-replicate, bytes, arith,
}
use pgraft.Core.Cluster.{
  Cluster, init_cluster_memory, members, core_is_leader, core_init, core_add_node,
}
use pgraft.Core.Members.{IsBounded}
use pgraft.Core.Run.{start, onward, initialises, new-IsBounded, CoreReach-IsBounded}
use pgraft.Json.Values.{JsonC}
use pgraft.Json.Operations.{create_kv_operation, operation_object}
use pgraft.Kv.Service.{OpType}
use pgraft.Worker.State.{fresh_worker, max_commands, no_command}
use pgraft.Worker.Fifo.{queued, IsQueue}
use pgraft.Replicate.Write.{GoView}
use pgraft.Sql.Keys.{datum, error, is_made, put_sql}
use pgraft.Sql.Nodes.{is_leader_sql}
use pgraft.Sql.Tables.{get_nodes_table}
use pgraft.Sql.Rows.{added-row}
use pgraft.Sql.Leads.{is_leader_sql-core}
use pgraft.Sql.Puts.{acceptable, backend, leads_with_room, whole_message, put_sql-queued}

new-IsQueue : IsQueue fresh_worker
unfolding fresh_worker
new-IsQueue = record {
  positive = omega arith;
  sized = length-replicate max_commands no_command;
  head_in = omega arith;
  bounded = omega arith;
  tail_at = refl;
}

abbrev silent : JsonC
silent = record { print = λ j. bytes "{}"; parse = λ s. none }

-- Node 4 leads.
abbrev leading : GoView
leading = record { leader = 4; term = 2; go_node_id = 4; peers = [] }

fits : is_made silent OpType.kv_put (bytes "a") (some (bytes "1")) (bytes "pg_7") 5 ≡ true
unfolding create_kv_operation operation_object
fits = refl

put_sql-queued_example :
    ((put_sql silent
        (backend leading (bytes "pg_7") 9 5 5)
        (some (bytes "a"))
        (some (bytes "1"))
        (init_cluster_memory none)
        fresh_worker).0
      ≡ (if acceptable (bytes "a") (bytes "1")
          then if leads_with_room leading fresh_worker then datum true else error
          else datum false))
    × (queued
          (put_sql silent
            (backend leading (bytes "pg_7") 9 5 5)
            (some (bytes "a"))
            (some (bytes "1"))
            (init_cluster_memory none)
            fresh_worker).2
        ≡ (if acceptable (bytes "a") (bytes "1") && leads_with_room leading fresh_worker
            then queued fresh_worker
              ++ (whole_message (bytes "pg_7") (bytes "a") (bytes "1") 9 ∷ [])
            else queued fresh_worker))
put_sql-queued_example =
    put_sql-queued silent leading (bytes "pg_7") (bytes "a") (bytes "1") 9 5 5
      (init_cluster_memory none) fresh_worker new-IsQueue refl fits fits

abbrev one_node : Cluster
one_node = (core_init 1 (bytes "10.0.0.1") 7001 (init_cluster_memory none)).1

one-IsBounded : IsBounded one_node
one-IsBounded =
    CoreReach-IsBounded (onward start (initialises 1 (bytes "10.0.0.1") 7001)) new-IsBounded

one_live : one_node.initialized ≡ true
unfolding init_cluster_memory core_init
one_live = refl

one_in : length (members one_node) < 16
unfolding init_cluster_memory core_init
one_in = omega arith

added-row_example :
    get_nodes_table (core_add_node 2 (bytes "h2") 7002 one_node).1
    ≡ get_nodes_table one_node
      ++ (record {
        id = 2;
        host = copy_text 255 (bytes "h2");
        port = 0;
        is_leader = one_node.leader_id == widen 2;
      }
          ∷ [])
added-row_example =
    added-row 2 (bytes "h2") 7002 one_node one-IsBounded one_live one_in (refl, (refl, tt))

abbrev no_cluster : Cluster
no_cluster = init_cluster_memory none

dead_differs : no_cluster.initialized ≡ true → fresh_worker.node_id ≡ no_cluster.node_id
unfolding init_cluster_memory
dead_differs live = ground arith

is_leader_sql-core_example : is_leader_sql no_cluster fresh_worker ≡ (
    if no_cluster.initialized then core_is_leader no_cluster else 0 == widen fresh_worker.node_id)
is_leader_sql-core_example = is_leader_sql-core no_cluster fresh_worker dead_differs

-- A node that was never initialised says that it leads.
fresh_leads : (is_leader_sql no_cluster fresh_worker ≡ true) × (core_is_leader no_cluster ≡ false)
unfolding core_is_leader init_cluster_memory fresh_worker
fresh_leads = (is_leader_sql-core_example, refl)
