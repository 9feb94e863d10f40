-- ===== src/Loop/Run.antt =====
-- Every history of the worker of src/pgraft.c and the backends that send it commands.
use pgraft.Base.{
  ℕ, get_or, ◌+◌, ◌%◌, ◌<◌, ◌≡◌, refl, inl, inr, ◌&&◌, Option, none, some, List, [], ◌∷◌, ◌==◌, leb,
  Bool-cases, CString, two63, arith,
}
use pgraft.Ring.{advance}
use pgraft.Ring.Laws.{push-IsValid, advance-IsValid}
use pgraft.Core.Cluster.{Cluster}
use pgraft.Core.Members.{IsBounded}
use pgraft.Core.Run.{lists}
use pgraft.Json.Values.{JsonC}
use pgraft.Worker.State.{CommandType, Command, no_command, max_commands, Worker}
use pgraft.Worker.Queue.{
  enqueue, queue_command, queue_log_command, queue_kv_command, dequeue_command, next_slot,
}
use pgraft.Worker.Fifo.{IsQueue}
use pgraft.Worker.Statuses.{add_command_to_status}
use pgraft.Worker.StatusLaws.{IsTracking, add-tracked}
use pgraft.Replicate.Write.{GoView, with_peers, update_from_go}
use pgraft.Golib.Loader.{Process}
use pgraft.Golib.Calls.{go_is_loaded}
use pgraft.Loop.Commands.{World}
use pgraft.Loop.Iterate.{
  System, Life, alive, died, run_command, process_command, refresh, slept, iterate, start_worker,
}
use pgraft.Loop.Sound.{IsSound, core_step, run-IsSound, settle-IsSound}

with_peers-IsBounded :
    (peers : List (ℕ × CString)) (c : Cluster) → IsBounded c → IsBounded (with_peers peers c)
unfolding with_peers
with_peers-IsBounded [] c b = b
with_peers-IsBounded (p ∷ peers) c b = core_step (lists (p ∷ peers)) b

refreshed :
    (g : Option GoView) (y : System)
    → IsSound y
    → IsSound
        (let (c, w) = update_from_go g y.cluster y.worker in record y { cluster = c; worker = w })
unfolding update_from_go
refreshed none y h = h
refreshed (some g) y h =
    let b = with_peers-IsBounded g.peers y.cluster h.bounded in
    record {
      queue = h.queue;
      tracking = h.tracking;
      bounded = record { sized = b.sized; within = b.within };
      consistent = h.consistent;
    }

refresh-IsSound : (world : World) (y : System) → IsSound y → IsSound (refresh world y)
unfolding refresh
refresh-IsSound world y h = elim (Bool-cases (y.sleep_count % 5 == 0 && go_is_loaded y.process)) [
  | inl due ↦ rw (refresh, due) (refreshed world.go_view y h)
  | inr not_due ↦ rw (refresh, not_due) h
]

refresh-log : (world : World) (y : System) → (refresh world y).log ≡ y.log
unfolding refresh
refresh-log world y = elim (Bool-cases (y.sleep_count % 5 == 0 && go_is_loaded y.process)) [
  | inl due ↦ rw (refresh, due) refl
  | inr not_due ↦ rw (refresh, not_due) refl
]

slept-IsSound : (r : Life × System) → IsSound r.1 → IsSound (slept r).1
unfolding slept
slept-IsSound (alive, y) h = record {
  queue = h.queue;
  tracking = h.tracking;
  bounded = h.bounded;
  consistent = h.consistent;
}
slept-IsSound (died, y) h = h

-- A command taken from the queue is tracked.
tracked_next :
    (c : Command) (w : Worker) (y : System)
    → IsSound y
    → IsQueue w
    → IsTracking w
    → IsSound (record y { worker = add_command_to_status c w })
unfolding add_command_to_status
tracked_next c w y h q t = record {
  queue = q;
  tracking = (add-tracked c w t).1;
  bounded = h.bounded;
  consistent = h.consistent;
}

process-IsSound :
    (lib : JsonC) (world : World) (y : System)
    → IsSound y
    → y.log.last_index + 1 < two63
    → IsSound (process_command lib world (dequeue_command y.worker) y).1
unfolding process_command dequeue_command
process-IsSound lib world y h small = elim (Bool-cases (y.worker.commands.count == 0)) [
  | inl empty ↦
      rw (process_command, dequeue_command, empty)
        (record {
          queue = h.queue;
          tracking = h.tracking;
          bounded = h.bounded;
          consistent = h.consistent;
        })
  | inr waiting ↦
      rw (process_command, dequeue_command, waiting)
        (next (get_or y.worker.commands.slots y.worker.commands.head no_command)
          (record y.worker { commands = advance max_commands y.worker.commands })
          (advance-IsValid max_commands no_command y.worker.commands h.queue (ground arith))
          h.tracking)
]
  where
    next :
        (c : Command) (w : Worker)
        → IsQueue w
        → IsTracking w
        → IsSound (process_command lib world (some c, w) y).1
    next c w q t =
        let z : System = record y { worker = add_command_to_status c w } in
        settle-IsSound c (run_command lib world c.type c z).0 (run_command lib world c.type c z).1
          (run-IsSound lib world c z (tracked_next c w y h q t) small c.type)

iterate-IsSound :
    (lib : JsonC) (world : World) (y : System)
    → IsSound y
    → y.log.last_index + 1 < two63
    → IsSound (iterate lib world y).1
unfolding iterate
iterate-IsSound lib world y h small =
    slept-IsSound
      (process_command lib world (dequeue_command (refresh world y).worker) (refresh world y))
      (process-IsSound lib world (refresh world y) (refresh-IsSound world y h)
        (rw (refresh-log world y) small))

enqueue-IsSound :
    (fill : Command → Command) (y : System)
    → IsSound y
    → IsSound (record y { worker = (enqueue fill y.worker).1 })
unfolding enqueue
enqueue-IsSound fill y h = elim (Bool-cases (leb max_commands y.worker.commands.count)) [
  | inl full ↦ rw full h
  | inr room ↦ rw room (record {
    queue =
        push-IsValid max_commands no_command y.worker.commands h.queue (fill (next_slot y.worker))
          (ground arith);
    tracking = h.tracking;
    bounded = h.bounded;
    consistent = h.consistent;
  })
]

-- A backend queues a command, or the worker starts in a new process, or goes once through its loop, during which it appends to the log
-- only before 2 ^ 63 - 1 entries were appended.
pub data Step (y : System) : System → Type 0 where
  queues_node :
      (t : CommandType) (node_id : ℕ) (address : Option CString) (port : ℕ)
      (cluster_id : Option CString) (now : ℕ)
      → Step y
          (record y { worker = (queue_command t node_id address port cluster_id now y.worker).1 })
  queues_log :
      (t : CommandType) (log_data : Option CString) (log_index now : ℕ)
      → Step y (record y { worker = (queue_log_command t log_data log_index now y.worker).1 })
  queues_kv :
      (t : CommandType) (key value client_id : Option CString) (now : ℕ)
      → Step y (record y { worker = (queue_kv_command t key value client_id now y.worker).1 })
  iterates :
      (lib : JsonC) (world : World) → y.log.last_index + 1 < two63 → Step y (iterate lib world y).1
  restarts :
      (name : Option CString) (p : Process)
      → Step y (record y { worker = start_worker name y.worker; process = p; sleep_count = 0 })

pub data Reach (y : System) : System → Type 0 where
  here : Reach y y
  next : {a b : System} → Reach y a → Step a b → Reach y b

Step-IsSound : {y z : System} → Step y z → IsSound y → IsSound z
unfolding queue_command queue_log_command queue_kv_command start_worker
Step-IsSound {y} (queues_node t node_id address port cluster_id now) h = enqueue-IsSound _ y h
Step-IsSound {y} (queues_log t log_data log_index now) h = enqueue-IsSound _ y h
Step-IsSound {y} (queues_kv t key value client_id now) h = enqueue-IsSound _ y h
Step-IsSound {y} (iterates lib world small) h = iterate-IsSound lib world y h small
Step-IsSound {y} (restarts name p) h = record {
  queue = h.queue;
  tracking = h.tracking;
  bounded = h.bounded;
  consistent = h.consistent;
}

-- However the backends queue commands and the worker starts, ends and goes through its loop, in whatever order and
-- whatever Go answers, from shared memory that is well-formed, it stays so: the command queue and
-- the status buffer are rings of 100 slots with consistent pointers, the cluster has at most 16 nodes, and
-- the log keeps its invariant.
pub Reach-IsSound : {y z : System} → Reach y z → IsSound y → IsSound z
Reach-IsSound here h = h
Reach-IsSound (next r s) h = Step-IsSound s (Reach-IsSound r h)
