-- ===== src/Loop/Drain.antt =====
-- The worker of src/pgraft.c, until its queue is empty.
use pgraft.Base.{ℕ, zero, suc, ◌<◌, ◌≡◌, refl, ap, true, false, List, ◌==◌, arith}
use pgraft.Ring.{advance}
use pgraft.Ring.Laws.{contents, contents-advance, advance-IsValid, oldest}
use pgraft.Json.Values.{JsonC}
use pgraft.Worker.State.{Command, no_command, max_commands}
use pgraft.Worker.Queue.{dequeue_command, queue_is_empty}
use pgraft.Worker.Fifo.{IsQueue}
use pgraft.Worker.Statuses.{add_command_to_status}
use pgraft.Loop.Commands.{World}
use pgraft.Loop.Iterate.{
  System, alive, run_command, settle, process_command, refresh, iterate, is_stopped, rounds,
}
use pgraft.Loop.Progress.{
  Keeps, Keeps-trans, IsRoutine, AllRoutine, CanAppend, routine-Returns, settle-alive,
  refresh-Keeps, slept-Keeps,
}

-- The system with the oldest command taken.
abbrev pub taken : System → System
taken y = record y {
  worker = record y.worker { commands = advance max_commands y.worker.commands };
}

abbrev pub started : Command → System → System
started c y = record y { worker = add_command_to_status c (taken y).worker }

pub started-Keeps : (c : Command) (y : System) → Keeps (taken y) (started c y)
unfolding add_command_to_status
started-Keeps c y = record { same_queue = refl; same_process = refl; same_status = refl }

command-alive :
    (lib : JsonC) (world : World) (y : System) (c : Command)
    → CanAppend y.process
    → IsRoutine lib c c.type
    → ((settle c (run_command lib world c.type c (started c y))).0 ≡ alive)
      × Keeps (taken y) (settle c (run_command lib world c.type c (started c y))).1
command-alive lib world y c can routine =
    let (answered, kept) = routine-Returns lib world c c.type (started c y) can routine in
    let (up, kept') =
      settle-alive c (run_command lib world c.type c (started c y)).0
        (run_command lib world c.type c (started c y)).1 answered in
    (up, Keeps-trans (started-Keeps c y) (Keeps-trans kept kept'))

process-alive :
    (lib : JsonC) (world : World) (y : System)
    → 0 < y.worker.commands.count
    → CanAppend y.process
    → IsRoutine lib
        (oldest max_commands no_command y.worker.commands)
        (oldest max_commands no_command y.worker.commands).type
    → ((process_command lib world (dequeue_command y.worker) y).0 ≡ alive)
      × Keeps (taken y) (process_command lib world (dequeue_command y.worker) y).1
unfolding process_command dequeue_command
process-alive lib world y waiting can routine =
    let some_left : (y.worker.commands.count == 0) ≡ false = ground arith in
    rw (process_command, dequeue_command, some_left)
      (command-alive lib world y (oldest max_commands no_command y.worker.commands) can routine)

-- One iteration takes a routine command and goes on.
pub iterate-alive :
    (lib : JsonC) (world : World) (y : System)
    → 0 < y.worker.commands.count
    → CanAppend y.process
    → IsRoutine lib
        (oldest max_commands no_command y.worker.commands)
        (oldest max_commands no_command y.worker.commands).type
    → ((iterate lib world y).0 ≡ alive) × Keeps (taken y) (iterate lib world y).1
unfolding iterate
iterate-alive lib world y waiting can routine =
    let k = refresh-Keeps world y in
    let (up, kept) =
      process-alive lib world (refresh world y) (rw k.same_queue waiting) (rw k.same_process can)
        (rw k.same_queue routine) in
    let (up', kept') =
      slept-Keeps
        (process_command lib world (dequeue_command (refresh world y).worker) (refresh world y))
        up in
    (
      up',
      Keeps-trans
          (record {
            same_queue = ap (advance max_commands) k.same_queue;
            same_process = k.same_process;
            same_status = k.same_status;
          })
          (Keeps-trans kept kept'),
    )

pub routine_same : (lib : JsonC) {l m : List Command} → l ≡ m → AllRoutine lib l → AllRoutine lib m
routine_same lib e h = rw (← e) h

-- Commits, applies and writes whose JSON fits do not end the worker: from a running worker with `n` such commands
-- queued, whose process has the function that appends where it has the library, `n` iterations leave the worker
-- alive and not stopped and the queue empty, whatever Go answers.
pub rounds-drain :
    (lib : JsonC) (n : ℕ) (world : ℕ → World) (y : System)
    → IsQueue y.worker
    → is_stopped y.worker.status ≡ false
    → CanAppend y.process
    → y.worker.commands.count ≡ n
    → AllRoutine lib (contents max_commands no_command y.worker.commands)
    → ((rounds lib n world y).0 ≡ alive)
      × (is_stopped (rounds lib n world y).1.worker.status ≡ false)
      × (queue_is_empty (rounds lib n world y).1.worker ≡ true)
unfolding rounds queue_is_empty advance
rounds-drain lib zero world y q up can none_left routine = (refl, up, rw none_left refl)
rounds-drain lib (suc n) world y q up can count routine =
    let waiting : 0 < y.worker.commands.count = omega (arith, count) in
    let split = contents-advance max_commands no_command y.worker.commands q waiting in
    let (first, rest) = routine_same lib split routine in
    let (on, k) = iterate-alive lib (world n) y waiting can first in
    rw (rounds, up, on)
      (rounds-drain lib n world (iterate lib (world n) y).1
        (rw k.same_queue (advance-IsValid max_commands no_command y.worker.commands q waiting))
        (rw k.same_status up) (rw k.same_process can)
        (rw (k.same_queue, advance) (omega (arith, count))) (rw k.same_queue rest))
