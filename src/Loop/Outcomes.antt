-- ===== src/Loop/Outcomes.antt =====
-- What a client sees of a command that the worker of src/pgraft.c has taken.
use pgraft.Base.{
  ℕ, ◌<◌, ◌≤◌, ◌≡◌, ◌∙◌, refl, ap, sym, true, Option, none, some, List, [], ◌∷◌, ◌++◌, find, le→leb,
  CString, ok, fail, raised, fault, arith,
}
use pgraft.Ring.Laws.{contents, length-contents}
use pgraft.Core.Cluster.{Cluster, core_add_node, max_nodes}
use pgraft.Json.Values.{JsonC}
use pgraft.Worker.State.{
  CommandType, init, add_node, remove_node, log_append, log_commit, log_apply, shutdown, kv_put,
  kv_delete, Command, no_command, max_commands, CommandStatus, Worker, completed, failed,
}
use pgraft.Worker.Statuses.{add_command_to_status, update_command_status, is_finished, with_status}
use pgraft.Worker.StatusLaws.{tracked, IsTracking, has_time, add-tracked}
use pgraft.Worker.StatusUpdates.{update-tracked, update_first, track-update}
use pgraft.Loop.Commands.{World, init_system, add_node_system}
use pgraft.Loop.Iterate.{
  System, Life, alive, died, Result, run_init, run_add_node, run_remove_node, run_log_append,
  run_log_commit, run_log_apply, run_shutdown, run_command, settle, process_command,
}
use pgraft.Loop.Sound.{init_worker-statuses}

-- The status buffer behind a command `c` that the worker took when the buffer held `before`.
abbrev pub Recorded : Command → List Command → Life × System → Type 0
Recorded c before (alive, z) =
    (d : Command) × (tracked z.worker ≡ before ++ (d ∷ []))
    × (is_finished d.status ≡ true)
    × (d.type ≡ c.type)
    × (d.timestamp ≡ c.timestamp)
Recorded c before (died, z) = tracked z.worker ≡ before ++ (c ∷ [])

run-statuses :
    (lib : JsonC) (world : World) (t : CommandType) (c : Command) (y : System)
    → (run_command lib world t c y).1.worker.status_commands ≡ y.worker.status_commands
unfolding run_command run_init run_add_node run_remove_node run_log_append run_log_commit
    run_log_apply run_shutdown
run-statuses lib world init c y =
    init_worker-statuses (init_system world c.node_id c.address c.port y.cluster y.process).0 c
      y.worker
run-statuses lib world add_node c y = refl
run-statuses lib world remove_node c y = refl
run-statuses lib world log_append c y = refl
run-statuses lib world log_commit c y = refl
run-statuses lib world log_apply c y = refl
run-statuses lib world shutdown c y = refl
run-statuses lib world kv_put c y = refl
run-statuses lib world kv_delete c y = refl

module _ (c : Command) (w : Worker) (v : IsTracking w)
    (room : w.status_commands.count < max_commands)
    (fresh : find (has_time c.timestamp) (tracked w) ≡ none) where
  appended : tracked (add_command_to_status c w) ≡ tracked w ++ (c ∷ [])
  appended =
      (add-tracked c w v).0
      ∙ rw (length-contents max_commands no_command w.status_commands) (ground arith)

  updated :
      (s : CommandStatus) (m : Option CString) (u : Worker)
      → u.status_commands ≡ (add_command_to_status c w).status_commands
      → tracked (update_command_status c.timestamp s m u).1 ≡ tracked w ++ (with_status s m c ∷ [])
  updated s m u same =
      let v' = (add-tracked c w v).1 in
      (update-tracked c.timestamp s m u (rw same v')).1
      ∙ ap
          (λ r.
            update_first (has_time c.timestamp) (with_status s m)
              (contents max_commands no_command r))
          same
      ∙ sym (update-tracked c.timestamp s m (add_command_to_status c w) v').1
      ∙ track-update c s m w v room
      ∙ rw fresh refl

  settle-Recorded :
      (r : Result) (y : System)
      → y.worker.status_commands ≡ (add_command_to_status c w).status_commands
      → Recorded c (tracked w) (settle c (r, y))
  unfolding settle with_status
  settle-Recorded (ok, m) y same =
      (_, updated completed (some c.error_message) y.worker same, refl, refl, refl)
  settle-Recorded (fail, m) y same = (_, updated failed _ y.worker same, refl, refl, refl)
  settle-Recorded (raised, m) y same = ap (contents max_commands no_command) same ∙ appended
  settle-Recorded (fault, m) y same = ap (contents max_commands no_command) same ∙ appended

  -- A command that the worker takes while the status buffer has room and tracks no other command of
  -- the same second is recorded as completed or failed where the worker goes on; where an error in a helper
  -- ends the worker, the buffer keeps it with the status it was queued with.
  pub process-Recorded :
      (lib : JsonC) (world : World) (y : System)
      → Recorded c (tracked w) (process_command lib world (some c, w) y)
  unfolding process_command
  process-Recorded lib world y =
      let z : System = record y { worker = add_command_to_status c w } in
      settle-Recorded (run_command lib world c.type c z).0 (run_command lib world c.type c z).1
        (run-statuses lib world c.type c z)

full-raises :
    (node_id port : ℕ) (address : CString) (c : Cluster)
    → c.initialized ≡ true
    → max_nodes ≤ c.num_nodes
    → core_add_node node_id address port c ≡ (raised, c)
unfolding core_add_node
full-raises node_id port address c live full = rw (live, le→leb _ _ full) refl

-- Taking an ADD_NODE while an initialised cluster has 16 nodes ends the worker, which has done
-- nothing but to add the command, as it was queued, to the status buffer.
pub full_cluster-died :
    (lib : JsonC) (world : World) (c : Command) (w : Worker) (y : System)
    → c.type ≡ add_node
    → y.cluster.initialized ≡ true
    → max_nodes ≤ y.cluster.num_nodes
    → process_command lib world (some c, w) y
      ≡ (died, record y { worker = add_command_to_status c w })
unfolding process_command run_command run_add_node add_node_system settle
full_cluster-died lib world c w y adds live full =
    rw
      (
        process_command,
        adds,
        run_add_node,
        add_node_system,
        full-raises c.node_id c.port c.address y.cluster live full,
      )
      refl
