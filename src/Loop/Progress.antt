-- ===== src/Loop/Progress.antt =====
-- The worker of src/pgraft.c works off its queue.
use pgraft.Base.{
  ℕ, ◌%◌, ◌≡◌, ◌≢◌, ◌⊎◌, ◌∙◌, refl, inl, inr, ◌&&◌, true, Option, none, some, List, [], ◌∷◌, ◌==◌,
  lt32, get_or, Bool-cases, Option-cases, length, widen, CString, Status, ok, fail, raised, fault,
}
use pgraft.Json.Values.{JsonC}
use pgraft.Json.Operations.{create_kv_operation}
use pgraft.Log.State.{LogState, blank_entry}
use pgraft.Log.Ops.{find_entry, commit_at, commit_entry, apply_at, apply_entry}
use pgraft.Kv.Service.{OpType}
use pgraft.Worker.State.{
  CommandType, init, add_node, remove_node, log_append, log_commit, log_apply, shutdown, kv_put,
  kv_delete, Command, CommandStatus, Worker, completed, failed,
}
use pgraft.Worker.Statuses.{update_command_status, find_status}
use pgraft.Replicate.Write.{update_from_go, GoView}
use pgraft.Golib.Loader.{Process}
use pgraft.Golib.Calls.{go_is_loaded, go_append_log}
use pgraft.Loop.Commands.{World, log_commit_system, log_apply_system}
use pgraft.Loop.Iterate.{
  System, Life, alive, died, Result, run_log_commit, run_log_apply, appended_kv, run_kv,
  run_command, settle, refresh, slept,
}
use pgraft.Loop.Sound.{update-queue}

-- What the loop's progress depends on: the queue, the process, and the worker's status.
pub record Keeps (y z : System) : Type 0 where
  pub same_queue : z.worker.commands ≡ y.worker.commands
  pub same_process : z.process ≡ y.process
  pub same_status : z.worker.status ≡ y.worker.status

pub Keeps-trans : {x y z : System} → Keeps x y → Keeps y z → Keeps x z
Keeps-trans a b = record {
  same_queue = b.same_queue ∙ a.same_queue;
  same_process = b.same_process ∙ a.same_process;
  same_status = b.same_status ∙ a.same_status;
}

-- A helper that returns.
abbrev pub Returns : Status → Type 0
Returns s = (s ≡ ok) ⊎ (s ≡ fail)

-- The commands whose helpers return whatever the cluster and the log hold: a commit, an apply, and
-- a write whose JSON fits its buffer, whenever it is made.
abbrev pub IsRoutine : JsonC → Command → CommandType → Type 0
IsRoutine lib c log_commit = Unit
IsRoutine lib c log_apply = Unit
IsRoutine lib c kv_put =
    (timestamp : ℕ)
    → create_kv_operation lib OpType.kv_put c.kv_key (some c.kv_value) c.kv_client_id timestamp 2048
      ≢ none
IsRoutine lib c kv_delete =
    (timestamp : ℕ)
    → create_kv_operation lib OpType.kv_delete c.kv_key none c.kv_client_id timestamp 2048 ≢ none
IsRoutine lib c t = t ≡ log_commit

abbrev pub AllRoutine : JsonC → List Command → Type 0
AllRoutine lib [] = Unit
AllRoutine lib (c ∷ cs) = IsRoutine lib c c.type × AllRoutine lib cs

-- A process that is loaded has the function that appends.
abbrev pub CanAppend : Process → Type 0
CanAppend p = go_is_loaded p ≡ true → p.pointers.append_log ≡ true

appended-Returns : (op : OpType) (n : ℕ) → Returns (appended_kv op (some n)).0
unfolding appended_kv
appended-Returns op n = elim (Bool-cases (lt32 n 0)) [
  | inl negative ↦ rw (appended_kv, negative) (inr refl)
  | inr accepted ↦ rw (appended_kv, accepted) (inl refl)
]

commit-Returns : (index : ℕ) (l : LogState) (o : Option ℕ) → Returns (commit_at index l o).0
unfolding commit_at
commit-Returns index l none = inr refl
commit-Returns index l (some i) = inl refl

apply-Returns : (index : ℕ) (l : LogState) (o : Option ℕ) → Returns (apply_at index l o).0
unfolding apply_at
apply-Returns index l none = inr refl
apply-Returns index l (some i) = elim (Bool-cases (get_or l.entries i blank_entry).committed) [
  | inl committed ↦ rw (apply_at, committed) (inl refl)
  | inr pending ↦ rw (apply_at, pending) (inr refl)
]

module _ (lib : JsonC) (world : World) (c : Command) where
  kv-Returns :
      (op : OpType) (value : Option CString) (p : Process)
      → CanAppend p
      → create_kv_operation lib op c.kv_key value c.kv_client_id world.timestamp 2048 ≢ none
      → Returns (run_kv lib world op value c p).0
  unfolding run_kv go_append_log
  kv-Returns op value p can made = elim (Bool-cases (go_is_loaded p)) [
    | inr unloaded ↦ rw (run_kv, unloaded) (inr refl)
    | inl loaded ↦
        elim (Option-cases
          (create_kv_operation lib op c.kv_key value c.kv_client_id world.timestamp 2048)) [
            | inl e ↦ absurd (made e)
            | inr (s, e) ↦
                rw (run_kv, loaded, e, go_append_log, loaded, can loaded)
                  (appended-Returns op (world.go.append_log s (length s)))
          ]
  ]

  pub routine-Returns :
      (t : CommandType) (y : System)
      → CanAppend y.process
      → IsRoutine lib c t
      → Returns (run_command lib world t c y).0.0 × Keeps y (run_command lib world t c y).1
  unfolding run_command run_log_commit run_log_apply log_commit_system log_apply_system commit_entry
      apply_entry
  routine-Returns log_commit y can h = (
    commit-Returns (widen c.log_index) y.log (find_entry (widen c.log_index) y.log),
    record { same_queue = refl; same_process = refl; same_status = refl },
  )
  routine-Returns log_apply y can h = (
    apply-Returns (widen c.log_index) y.log (find_entry (widen c.log_index) y.log),
    record { same_queue = refl; same_process = refl; same_status = refl },
  )
  routine-Returns kv_put y can h = (
    kv-Returns OpType.kv_put (some c.kv_value) y.process can (h world.timestamp),
    record { same_queue = refl; same_process = refl; same_status = refl },
  )
  routine-Returns kv_delete y can h = (
    kv-Returns OpType.kv_delete none y.process can (h world.timestamp),
    record { same_queue = refl; same_process = refl; same_status = refl },
  )
  routine-Returns init y can h = cc h
  routine-Returns add_node y can h = cc h
  routine-Returns remove_node y can h = cc h
  routine-Returns log_append y can h = cc h
  routine-Returns shutdown y can h = cc h

update-status :
    (n : ℕ) (s : CommandStatus) (m : Option CString) (w : Worker)
    → (update_command_status n s m w).1.status ≡ w.status
unfolding update_command_status
update-status n s m w =
    elim (Option-cases (find_status w.status_commands.count 0 n w.status_commands)) [
      | inl e ↦ rw (update_command_status, e) refl
      | inr (i, e) ↦ rw (update_command_status, e) refl
    ]

update-Keeps :
    (n : ℕ) (s : CommandStatus) (m : Option CString) (y : System)
    → Keeps y (record y { worker = (update_command_status n s m y.worker).1 })
update-Keeps n s m y = record {
  same_queue = update-queue n s m y.worker;
  same_process = refl;
  same_status = update-status n s m y.worker;
}

pub settle-alive :
    (c : Command) (r : Result) (y : System)
    → Returns r.0
    → ((settle c (r, y)).0 ≡ alive) × Keeps y (settle c (r, y)).1
unfolding settle
settle-alive c (ok, m) y h = (refl, update-Keeps c.timestamp completed (some c.error_message) y)
settle-alive c (fail, m) y h = (refl, update-Keeps c.timestamp failed _ y)
settle-alive c (raised, m) y (inl e) = cc e
settle-alive c (raised, m) y (inr e) = cc e
settle-alive c (fault, m) y (inl e) = cc e
settle-alive c (fault, m) y (inr e) = cc e

refreshed-Keeps :
    (g : Option GoView) (y : System)
    → Keeps y
        (let (c, w) = update_from_go g y.cluster y.worker in record y { cluster = c; worker = w })
unfolding update_from_go
refreshed-Keeps none y = record { same_queue = refl; same_process = refl; same_status = refl }
refreshed-Keeps (some g) y = record { same_queue = refl; same_process = refl; same_status = refl }

pub refresh-Keeps : (world : World) (y : System) → Keeps y (refresh world y)
unfolding refresh
refresh-Keeps world y = elim (Bool-cases (y.sleep_count % 5 == 0 && go_is_loaded y.process)) [
  | inl due ↦ rw (refresh, due) (refreshed-Keeps world.go_view y)
  | inr not_due ↦
      rw (refresh, not_due) (record { same_queue = refl; same_process = refl; same_status = refl })
]

pub slept-Keeps : (r : Life × System) → r.0 ≡ alive → ((slept r).0 ≡ alive) × Keeps r.1 (slept r).1
unfolding slept
slept-Keeps (alive, y) h =
    (refl, record { same_queue = refl; same_process = refl; same_status = refl })
slept-Keeps (died, y) h = cc h
