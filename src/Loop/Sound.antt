-- ===== src/Loop/Sound.antt =====
-- The invariants of the structures in shared memory, under the worker of src/pgraft.c and the
-- backends that send it commands.
use pgraft.Base.{
  ℕ, ◌+◌, ◌<◌, ◌≡◌, refl, inl, inr, Option, some, Bool-cases, Option-cases, length, widen, CString,
  Status, ok, fail, raised, fault, two63,
}
use pgraft.Core.Cluster.{Cluster, core_init}
use pgraft.Core.Members.{IsBounded}
use pgraft.Core.Run.{CoreStep, initialises, adds, removes, start, onward, CoreReach-IsBounded}
use pgraft.Log.Inv.{IsConsistent}
use pgraft.Log.Steps.{append-IsConsistent}
use pgraft.Log.Moves.{commit-IsConsistent, apply-IsConsistent}
use pgraft.Json.Values.{JsonC}
use pgraft.Worker.State.{
  CommandType, init, add_node, remove_node, log_append, log_commit, log_apply, shutdown, kv_put,
  kv_delete, Command, CommandStatus, Worker, completed, failed,
}
use pgraft.Worker.Fifo.{IsQueue}
use pgraft.Worker.Statuses.{update_command_status, find_status}
use pgraft.Worker.StatusLaws.{IsTracking}
use pgraft.Worker.StatusUpdates.{update-tracked}
use pgraft.Golib.Loader.{Process}
use pgraft.Loop.Commands.{
  World, init_system, add_node_system, remove_node_system, log_append_system, log_commit_system,
  log_apply_system, remove_core,
}
use pgraft.Loop.Iterate.{
  System, Result, init_worker, run_init, run_add_node, run_remove_node, run_log_append,
  run_log_commit, run_log_apply, run_shutdown, run_command, settle,
}

pub record IsSound (y : System) : Type 0 where
  pub queue : IsQueue y.worker
  pub tracking : IsTracking y.worker
  pub bounded : IsBounded y.cluster
  pub consistent : IsConsistent y.log

core_init-ok :
    (node_id port : ℕ) (address : CString) (c : Cluster) → (core_init node_id address port c).0 ≡ ok
unfolding core_init
core_init-ok node_id port address c = elim (Bool-cases c.initialized) [
  | inl live ↦ rw live refl
  | inr dead ↦ rw dead refl
]

init_system-cluster :
    (world : World) (node_id port : ℕ) (address : CString) (c : Cluster) (p : Process)
    → (init_system world node_id address port c p).1 ≡ (core_init node_id address port c).1
unfolding init_system
init_system-cluster world node_id port address c p =
    rw (init_system, core_init-ok node_id port address c) refl

pub core_step : {c c' : Cluster} → CoreStep c c' → IsBounded c → IsBounded c'
core_step s b = CoreReach-IsBounded (onward start s) b

remove_core-IsBounded :
    (s : Status) (node_id : ℕ) (c : Cluster) → IsBounded c → IsBounded (remove_core s node_id c).1
unfolding remove_core
remove_core-IsBounded ok node_id c b = core_step (removes node_id) b
remove_core-IsBounded fail node_id c b = b
remove_core-IsBounded raised node_id c b = b
remove_core-IsBounded fault node_id c b = b

init_worker-queue :
    (s : Status) (c : Command) (w : Worker) → (init_worker s c w).commands ≡ w.commands
unfolding init_worker
init_worker-queue ok c w = refl
init_worker-queue fail c w = refl
init_worker-queue raised c w = refl
init_worker-queue fault c w = refl

pub init_worker-statuses :
    (s : Status) (c : Command) (w : Worker)
    → (init_worker s c w).status_commands ≡ w.status_commands
unfolding init_worker
init_worker-statuses ok c w = refl
init_worker-statuses fail c w = refl
init_worker-statuses raised c w = refl
init_worker-statuses fault c w = refl

module _ (lib : JsonC) (world : World) (c : Command) (y : System) (h : IsSound y)
    (small : y.log.last_index + 1 < two63) where
  pub run-IsSound : (t : CommandType) → IsSound (run_command lib world t c y).1
  unfolding run_command run_init run_add_node run_remove_node run_log_append run_log_commit
      run_log_apply run_shutdown add_node_system log_append_system log_commit_system
      log_apply_system remove_node_system
  run-IsSound init = record {
    queue =
        rw
          (init_worker-queue (init_system world c.node_id c.address c.port y.cluster y.process).0 c
            y.worker)
          h.queue;
    tracking =
        rw
          (init_worker-statuses (init_system world c.node_id c.address c.port y.cluster y.process).0
            c y.worker)
          h.tracking;
    bounded =
        rw (init_system-cluster world c.node_id c.port c.address y.cluster y.process)
          (core_step (initialises c.node_id c.address c.port) h.bounded);
    consistent = h.consistent;
  }
  run-IsSound add_node = record {
    queue = h.queue;
    tracking = h.tracking;
    bounded = core_step (adds c.node_id c.address c.port) h.bounded;
    consistent = h.consistent;
  }
  run-IsSound remove_node = record {
    queue = h.queue;
    tracking = h.tracking;
    bounded = remove_core-IsBounded _ c.node_id y.cluster h.bounded;
    consistent = h.consistent;
  }
  run-IsSound log_append = record {
    queue = h.queue;
    tracking = h.tracking;
    bounded = h.bounded;
    consistent =
        append-IsConsistent world.timestamp (widen c.log_index) (some c.log_data)
          (length c.log_data) y.log h.consistent small;
  }
  run-IsSound log_commit = record {
    queue = h.queue;
    tracking = h.tracking;
    bounded = h.bounded;
    consistent = commit-IsConsistent (widen c.log_index) y.log h.consistent;
  }
  run-IsSound log_apply = record {
    queue = h.queue;
    tracking = h.tracking;
    bounded = h.bounded;
    consistent = apply-IsConsistent (widen c.log_index) y.log h.consistent;
  }
  run-IsSound shutdown = record {
    queue = h.queue;
    tracking = h.tracking;
    bounded = h.bounded;
    consistent = h.consistent;
  }
  run-IsSound kv_put = h
  run-IsSound kv_delete = h

-- The updates of the status buffer touch nothing else.
pub update-queue :
    (n : ℕ) (s : CommandStatus) (m : Option CString) (w : Worker)
    → (update_command_status n s m w).1.commands ≡ w.commands
unfolding update_command_status
update-queue n s m w =
    elim (Option-cases (find_status w.status_commands.count 0 n w.status_commands)) [
      | inl e ↦ rw (update_command_status, e) refl
      | inr (i, e) ↦ rw (update_command_status, e) refl
    ]

updated :
    (n : ℕ) (s : CommandStatus) (m : Option CString) (y : System)
    → IsSound y
    → IsSound (record y { worker = (update_command_status n s m y.worker).1 })
updated n s m y h = record {
  queue = rw (update-queue n s m y.worker) h.queue;
  tracking = (update-tracked n s m y.worker h.tracking).2;
  bounded = h.bounded;
  consistent = h.consistent;
}

pub settle-IsSound :
    (c : Command) (r : Result) (y : System) → IsSound y → IsSound (settle c (r, y)).1
unfolding settle
settle-IsSound c (ok, m) y h = updated c.timestamp completed (some c.error_message) y h
settle-IsSound c (fail, m) y h = updated c.timestamp failed _ y h
settle-IsSound c (raised, m) y h = h
settle-IsSound c (fault, m) y h = h
