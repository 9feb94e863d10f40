-- ===== src/Replicate/Tests.antt =====
-- The theorems on writes into Raft at a fresh worker.
use pgraft.Base.{
  ◌≡◌, refl, true, none, some, [], if◌then◌else◌, length, length-replicate, ltb, ok, raised, bytes,
  arith,
}
use pgraft.Core.Cluster.{init_cluster_memory}
use pgraft.Worker.State.{no_command, max_commands, fresh_worker}
use pgraft.Worker.Fifo.{queued, IsQueue}
use pgraft.Replicate.Write.{GoView, replicate_put}
use pgraft.Replicate.Leads.{replicate_put_uninitialised}

new-IsQueue : IsQueue fresh_worker
unfolding fresh_worker
new-IsQueue = record {
  positive = omega arith;
  sized = length-replicate max_commands no_command;
  head_in = omega arith;
  bounded = omega arith;
  tail_at = refl;
}

-- Node 4 leads.
abbrev leading : GoView
leading = record { leader = 4; term = 2; go_node_id = 4; peers = [] }

replicate_put_uninitialised_example :
    (replicate_put true none
      (some (bytes "a"))
      (some (bytes "1"))
      none
      9
      (init_cluster_memory none)
      fresh_worker).0
    ≡ (if ltb (length (queued fresh_worker)) max_commands then ok else raised)
replicate_put_uninitialised_example =
    replicate_put_uninitialised (bytes "a") (bytes "1") none 9 fresh_worker new-IsQueue
