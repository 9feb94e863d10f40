-- ===== src/Worker/Statuses.antt =====
-- The status buffer of src/pgraft_util.c. The functions that return a `bool` return true but
-- where the model returns `none` or false.
use pgraft.Base.{
  ℕ, zero, suc, ◌+◌, ◌-◌, ◌%◌, Bool, true, false, Option, none, some, List, leb, ltb, ◌==◌,
  if◌then◌else◌, get_or, set, CString, copy_text,
}
use pgraft.Ring.{Ring, push, advance}
use pgraft.Worker.State.{
  CommandStatus, pending, processing, completed, failed, Command, no_command, max_commands, Worker,
}

-- `pgraft_add_command_to_status`: a full buffer gives up its oldest entry.
unfoldable pub add_command_to_status : Command → Worker → Worker
add_command_to_status c w =
    let r =
      if leb max_commands w.status_commands.count
      then advance max_commands w.status_commands
      else w.status_commands in
    record w { status_commands = push max_commands c r }

-- The loops `for (i = 0; i < status_count; i++)` of the two searches: the slot that they stop at.
unfoldable pub find_status : ℕ → ℕ → ℕ → Ring Command → Option ℕ
find_status zero i timestamp r = none
find_status (suc rounds) i timestamp r =
    let index = (r.head + i) % max_commands in
    let rest = find_status rounds (i + 1) timestamp r in
    if (get_or r.slots index no_command).timestamp == timestamp then some index else rest

unfoldable pub get_command_status : ℕ → Worker → Option Command
get_command_status timestamp w =
    elim (find_status w.status_commands.count 0 timestamp w.status_commands) [
      | none ↦ none
      | some index ↦ some (get_or w.status_commands.slots index no_command)
    ]

-- A null message leaves the one that is there.
unfoldable pub with_status : CommandStatus → Option CString → Command → Command
with_status status none c = record c { status = status }
with_status status (some message) c = record c {
  status = status;
  error_message = copy_text 511 message;
}

unfoldable pub update_command_status : ℕ → CommandStatus → Option CString → Worker → Bool × Worker
update_command_status timestamp status message w =
    elim (find_status w.status_commands.count 0 timestamp w.status_commands) [
      | none ↦ (false, w)
      | some index ↦ (
        true,
        record w {
          status_commands = record w.status_commands {
            slots =
                set w.status_commands.slots index
                  (with_status status message (get_or w.status_commands.slots index no_command));
          };
        },
      )
    ]

abbrev pub is_finished : CommandStatus → Bool
is_finished pending = false
is_finished processing = false
is_finished completed = true
is_finished failed = true

-- The loop of `pgraft_remove_completed_commands`: the slots, and how many entries it counted out.
unfoldable pub remove_loop : ℕ → ℕ → ℕ → ℕ → List Command → List Command × ℕ
remove_loop zero i removed head slots = (slots, removed)
remove_loop (suc rounds) i removed head slots =
    let index = (head + i) % max_commands in
    elim (is_finished (get_or slots index no_command).status) [
      | true ↦ remove_loop rounds (i + 1) (removed + 1) head slots
      | false ↦ remove_loop rounds (i + 1) removed head (
          if ltb 0 removed
          then set slots ((head + i - removed) % max_commands) (get_or slots index no_command)
          else slots)
    ]

unfoldable pub remove_completed_commands : Worker → Worker
remove_completed_commands w =
    let r = w.status_commands in
    let (slots, removed) = remove_loop r.count 0 0 r.head r.slots in
    record w {
      status_commands = record r {
        slots = slots;
        head = (r.head + removed) % max_commands;
        count = r.count - removed;
      };
    }
