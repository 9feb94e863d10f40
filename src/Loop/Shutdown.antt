-- ===== src/Loop/Shutdown.antt =====
-- The end of the loop of `pgraft_main` in src/pgraft.c.
use pgraft.Base.{
  ℕ, zero, suc, ◌<◌, ◌≡◌, ◌∙◌, refl, ap, sym, true, false, List, [], ◌∷◌, ◌++◌, ◌==◌, length, ok,
  inl, arith,
}
use pgraft.Ring.{advance}
use pgraft.Ring.Laws.{contents, contents-advance, advance-IsValid, oldest, length-contents}
use pgraft.Json.Values.{JsonC}
use pgraft.Worker.State.{shutdown, Command, no_command, max_commands, stopped}
use pgraft.Worker.Queue.{dequeue_command, queue_is_empty}
use pgraft.Worker.Fifo.{IsQueue}
use pgraft.Loop.Commands.{World}
use pgraft.Loop.Iterate.{
  System, alive, run_shutdown, run_command, process_command, refresh, iterate, is_stopped, rounds,
}
use pgraft.Loop.Progress.{
  Keeps, Keeps-trans, AllRoutine, CanAppend, settle-alive, refresh-Keeps, slept-Keeps,
}
use pgraft.Loop.Drain.{taken, started, started-Keeps, iterate-alive}

abbrev halted : System → System
halted y = record y { worker = record y.worker { status = stopped } }

halted-Keeps : {y z : System} → Keeps y z → Keeps (halted y) (halted z)
halted-Keeps k = record {
  same_queue = k.same_queue;
  same_process = k.same_process;
  same_status = refl;
}

process-shutdown :
    (lib : JsonC) (world : World) (y : System)
    → 0 < y.worker.commands.count
    → (oldest max_commands no_command y.worker.commands).type ≡ shutdown
    → ((process_command lib world (dequeue_command y.worker) y).0 ≡ alive)
      × Keeps (halted (taken y)) (process_command lib world (dequeue_command y.worker) y).1
unfolding process_command dequeue_command run_command run_shutdown
process-shutdown lib world y waiting down =
    let some_left : (y.worker.commands.count == 0) ≡ false = ground arith in
    let c : Command = oldest max_commands no_command y.worker.commands in
    let (up, k) = settle-alive c (ok, []) (halted (started c y)) (inl refl) in
    rw (process_command, dequeue_command, some_left, down)
      (up, Keeps-trans (halted-Keeps (started-Keeps c y)) k)

iterate-shutdown :
    (lib : JsonC) (world : World) (y : System)
    → 0 < y.worker.commands.count
    → (oldest max_commands no_command y.worker.commands).type ≡ shutdown
    → ((iterate lib world y).0 ≡ alive) × Keeps (halted (taken y)) (iterate lib world y).1
unfolding iterate
iterate-shutdown lib world y waiting down =
    let k = refresh-Keeps world y in
    let (up, kept) =
      process-shutdown lib world (refresh world y) (rw k.same_queue waiting)
        (rw k.same_queue down) in
    let (up', kept') =
      slept-Keeps
        (process_command lib world (dequeue_command (refresh world y).worker) (refresh world y))
        up in
    (
      up',
      Keeps-trans
          (record {
            same_queue = ap (advance max_commands) k.same_queue;
            same_process = k.same_process;
            same_status = refl;
          })
          (Keeps-trans kept kept'),
    )

-- A loop whose condition is false is left.
rounds-stopped :
    (lib : JsonC) (m : ℕ) (world : ℕ → World) (y : System)
    → is_stopped y.worker.status ≡ true
    → rounds lib m world y ≡ (alive, y)
unfolding rounds
rounds-stopped lib zero world y e = refl
rounds-stopped lib (suc m) world y e = rw (rounds, e) refl

-- From a running worker in whose queue a SHUTDOWN stands behind commits, applies and writes whose
-- JSON fits, and whose process has the function that appends where it has the library, the loop
-- ends: with at least as many rounds as commands wait, it has stopped without an error and the queue is
-- empty, whatever Go answers.
pub rounds-shutdown :
    (lib : JsonC) (cs : List Command) (c : Command) (m : ℕ) (world : ℕ → World) (y : System)
    → IsQueue y.worker
    → is_stopped y.worker.status ≡ false
    → CanAppend y.process
    → contents max_commands no_command y.worker.commands ≡ cs ++ (c ∷ [])
    → AllRoutine lib cs
    → c.type ≡ shutdown
    → length cs < m
    → ((rounds lib m world y).0 ≡ alive)
      × (is_stopped (rounds lib m world y).1.worker.status ≡ true)
      × (queue_is_empty (rounds lib m world y).1.worker ≡ true)
unfolding rounds queue_is_empty advance
rounds-shutdown lib cs c zero world y q up can queue routine down enough =
    absurd (omega (arith, enough))
rounds-shutdown lib [] c (suc m) world y q up can queue routine down enough =
    let count : y.worker.commands.count ≡ 1 =
      sym (length-contents max_commands no_command y.worker.commands) ∙ ap length queue in
    let waiting : 0 < y.worker.commands.count = omega (arith, count) in
    let split = contents-advance max_commands no_command y.worker.commands q waiting in
    let first : oldest max_commands no_command y.worker.commands ≡ c = cc (split, queue) in
    let (on, k) = iterate-shutdown lib (world m) y waiting (rw first down) in
    let off : is_stopped (iterate lib (world m) y).1.worker.status ≡ true = rw k.same_status refl in
    rw (rounds, up, on, rounds-stopped lib m world (iterate lib (world m) y).1 off)
      (refl, off, rw (queue_is_empty, k.same_queue, advance) (ground arith))
rounds-shutdown lib (d ∷ cs) c (suc m) world y q up can queue routine down enough =
    let count : y.worker.commands.count ≡ length (d ∷ (cs ++ (c ∷ []))) =
      sym (length-contents max_commands no_command y.worker.commands) ∙ ap length queue in
    let waiting : 0 < y.worker.commands.count = omega (arith, count) in
    let split = contents-advance max_commands no_command y.worker.commands q waiting in
    let first : oldest max_commands no_command y.worker.commands ≡ d = cc (split, queue) in
    let rest : contents max_commands no_command (advance max_commands y.worker.commands)
        ≡ cs ++ (c ∷ []) =
      cc (split, queue) in
    let (on, k) = iterate-alive lib (world m) y waiting can (rw first routine.0) in
    rw (rounds, up, on)
      (rounds-shutdown lib cs c m world (iterate lib (world m) y).1
        (rw k.same_queue (advance-IsValid max_commands no_command y.worker.commands q waiting))
        (rw k.same_status up) (rw k.same_process can) (rw k.same_queue rest) routine.1 down
        (omega (arith, enough)))
