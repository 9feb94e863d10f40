-- ===== src/Loop/Tests.antt =====
-- Runs of the worker's loop.
use pgraft.Base.{
  ◌∷◌, [], ◌<◌, ◌≡◌, refl, true, false, none, some, bytes, length-replicate, find, arith,
}
use pgraft.Ring.Laws.{contents}
use pgraft.Core.Cluster.{init_cluster_memory, zero_cluster}
use pgraft.Core.Run.{new-IsBounded}
use pgraft.Log.State.{empty_log}
use pgraft.Log.Moves.{empty-IsConsistent}
use pgraft.Json.Values.{JsonC}
use pgraft.Worker.State.{
  shutdown, add_node, log_commit, kv_delete, Command, no_command, max_commands, Worker,
  fresh_worker,
}
use pgraft.Worker.Queue.{
  plain_command, queue_command, queue_log_command, queue_kv_command, queue_is_empty, enqueue,
  kv_command, log_command,
}
use pgraft.Ring.{push}
use pgraft.Json.Operations.{create_kv_operation, operation_object}
use pgraft.Worker.Fifo.{IsQueue}
use pgraft.Worker.Statuses.{add_command_to_status}
use pgraft.Worker.StatusLaws.{tracked, IsTracking, has_time}
use pgraft.Golib.Loader.{new_process}
use pgraft.Golib.Calls.{go_is_loaded}
use pgraft.Loop.Commands.{World}
use pgraft.Loop.Iterate.{
  System, alive, died, process_command, iterate, is_stopped, rounds, start_worker,
}
use pgraft.Loop.Sound.{IsSound}
use pgraft.Loop.Run.{here, next, queues_node, queues_log, queues_kv, iterates, Reach-IsSound}
use pgraft.Loop.Progress.{CanAppend, AllRoutine}
use pgraft.Loop.Drain.{rounds-drain}
use pgraft.Loop.Shutdown.{rounds-shutdown}
use pgraft.Loop.Outcomes.{Recorded, process-Recorded, full_cluster-died}

abbrev silent : JsonC
silent = record { print = λ j. bytes "{}"; parse = λ s. none }

abbrev quiet : World
quiet = record {
  go = record {
    init = λ node_id address port. 0;
    start = 0;
    start_background = 0;
    start_network_server = λ port. 0;
    add_peer = λ attempt node_id address port. 0;
    remove_peer = λ node_id. 0;
    append_log = λ payload len. 0;
    is_initialized = 1;
    is_leader = 1;
    trigger_heartbeat = 0;
  };
  build = record { pkglibdir = []; lib_name = bytes "raft.so"; pg_major = 17 };
  readable = λ path. false;
  opened = λ path. none;
  go_library_path = none;
  timestamp = 5;
  go_view = none;
}

abbrev ready : Worker
ready = start_worker (some (bytes "n1")) fresh_worker

abbrev begun : System
begun = record {
  cluster = init_cluster_memory none;
  log = empty_log;
  worker = ready;
  process = new_process;
  sleep_count = 0;
}

fresh-IsQueue : IsQueue fresh_worker
unfolding fresh_worker
fresh-IsQueue = record {
  positive = omega arith;
  sized = length-replicate max_commands no_command;
  head_in = omega arith;
  bounded = omega arith;
  tail_at = refl;
}

fresh-IsTracking : IsTracking fresh_worker
unfolding fresh_worker
fresh-IsTracking = record {
  positive = omega arith;
  sized = length-replicate max_commands no_command;
  head_in = omega arith;
  bounded = omega arith;
  tail_at = refl;
}

begun-IsSound : IsSound begun
unfolding start_worker
begun-IsSound = record {
  queue = fresh-IsQueue;
  tracking = fresh-IsTracking;
  bounded = new-IsBounded;
  consistent = empty-IsConsistent;
}

abbrev asked : System
asked = record begun { worker = (queue_command add_node 2 (some (bytes "h")) 7 none 60 ready).1 }

Reach-IsSound_example : IsSound (iterate silent quiet asked).1
Reach-IsSound_example =
    Reach-IsSound
      (next (next here (queues_node add_node 2 (some (bytes "h")) 7 none 60))
        (iterates silent quiet (omega arith)))
      begun-IsSound

-- A commit and a DELETE are queued.
abbrev two_asked : System
two_asked = record begun {
  worker =
      (queue_kv_command kv_delete (some (bytes "k")) none (some (bytes "c")) 61
        (queue_log_command log_commit none 1 60 ready).1).1;
}

two_asked-IsSound : IsSound two_asked
two_asked-IsSound =
    Reach-IsSound
      (next (next here (queues_log log_commit none 1 60))
        (queues_kv kv_delete (some (bytes "k")) none (some (bytes "c")) 61))
      begun-IsSound

two_asked-up : is_stopped two_asked.worker.status ≡ false
unfolding queue_kv_command queue_log_command enqueue push start_worker fresh_worker
two_asked-up = refl

two_asked-can : CanAppend two_asked.process
unfolding go_is_loaded
two_asked-can h = cc h

two_asked-count : two_asked.worker.commands.count ≡ 2
unfolding queue_kv_command queue_log_command enqueue push start_worker fresh_worker
two_asked-count = refl

two_asked-AllRoutine :
    AllRoutine silent (contents max_commands no_command two_asked.worker.commands)
unfolding queue_kv_command queue_log_command enqueue push start_worker fresh_worker kv_command
    log_command create_kv_operation operation_object
two_asked-AllRoutine = (tt, (λ timestamp e. cc e, tt))

rounds-drain_example :
    ((rounds silent 2 (λ n. quiet) two_asked).0 ≡ alive)
    × (is_stopped (rounds silent 2 (λ n. quiet) two_asked).1.worker.status ≡ false)
    × (queue_is_empty (rounds silent 2 (λ n. quiet) two_asked).1.worker ≡ true)
rounds-drain_example =
    rounds-drain silent 2 (λ n. quiet) two_asked two_asked-IsSound.queue two_asked-up two_asked-can
      two_asked-count two_asked-AllRoutine

abbrev commit_first : Command
commit_first = record no_command { type = log_commit; log_index = 1; timestamp = 60 }

abbrev shutdown_second : Command
shutdown_second = record no_command { type = shutdown; timestamp = 61 }

-- A commit and a SHUTDOWN are queued.
abbrev ending : System
ending = record begun {
  worker =
      (queue_command shutdown 0 none 0 none 61 (queue_log_command log_commit none 1 60 ready).1).1;
}

ending-IsSound : IsSound ending
ending-IsSound =
    Reach-IsSound
      (next (next here (queues_log log_commit none 1 60)) (queues_node shutdown 0 none 0 none 61))
      begun-IsSound

ending-up : is_stopped ending.worker.status ≡ false
unfolding queue_command queue_log_command enqueue push start_worker fresh_worker
ending-up = refl

ending-queue :
    contents max_commands no_command ending.worker.commands ≡ commit_first ∷ shutdown_second ∷ []
unfolding queue_command queue_log_command enqueue push start_worker fresh_worker plain_command
    log_command
ending-queue = refl

rounds-shutdown_example :
    ((rounds silent 9 (λ n. quiet) ending).0 ≡ alive)
    × (is_stopped (rounds silent 9 (λ n. quiet) ending).1.worker.status ≡ true)
    × (queue_is_empty (rounds silent 9 (λ n. quiet) ending).1.worker ≡ true)
rounds-shutdown_example =
    rounds-shutdown silent (commit_first ∷ []) shutdown_second 9 (λ n. quiet) ending
      ending-IsSound.queue ending-up two_asked-can ending-queue (tt, tt) refl (omega arith)

abbrev commit_one : Command
commit_one = record no_command { type = log_commit; log_index = 1; timestamp = 60 }

fresh_time : find (has_time 60) (tracked fresh_worker) ≡ none
unfolding find fresh_worker
fresh_time = refl

fresh_room : fresh_worker.status_commands.count < max_commands
unfolding fresh_worker
fresh_room = omega arith

process-Recorded_example :
    Recorded commit_one
      (tracked fresh_worker)
      (process_command silent quiet (some commit_one, fresh_worker) begun)
process-Recorded_example =
    process-Recorded commit_one fresh_worker fresh-IsTracking fresh_room fresh_time silent quiet
      begun

abbrev add_one : Command
add_one = record no_command { type = add_node; node_id = 17; timestamp = 60 }

abbrev crowded : System
crowded = record begun { cluster = record zero_cluster { initialized = true; num_nodes = 16 } }

crowded_dies :
    process_command silent quiet (some add_one, fresh_worker) crowded
    ≡ (died, record crowded { worker = add_command_to_status add_one fresh_worker })
crowded_dies = full_cluster-died silent quiet add_one fresh_worker crowded refl refl (omega arith)
