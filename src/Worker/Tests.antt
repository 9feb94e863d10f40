-- ===== src/Worker/Tests.antt =====
-- The theorems on the worker's buffers at concrete states.
use pgraft.Base.{
  ◌-◌, ◌<◌, ◌≡◌, refl, none, some, List, [], ◌∷◌, ◌++◌, length, length-replicate, drop, find,
  filter, bytes, if◌then◌else◌, arith,
}
use pgraft.Ring.{push}
use pgraft.Worker.State.{
  add_node, kv_put, Command, no_command, no_entry, max_commands, max_apply_entries, completed,
  Worker, fresh_worker,
}
use pgraft.Worker.Fifo.{
  Request, submit_node, submit_kv, take_next, serve_all, fifo_all, queued, IsQueue,
}
use pgraft.Worker.Refine.{serve_all-fifo}
use pgraft.Worker.Statuses.{
  add_command_to_status, update_command_status, with_status, remove_completed_commands,
}
use pgraft.Worker.StatusLaws.{tracked, IsTracking, has_time, add-tracked}
use pgraft.Worker.StatusUpdates.{update_first, is_found, track-update}
use pgraft.Worker.RemoveLoop.{is_unfinished}
use pgraft.Worker.Remove.{survivors, remove-tracked, remove_drops_unfinished}
use pgraft.Worker.ApplyFifo.{
  Step, commit, fetch, perform_all, expected_all, waiting, IsApplyQueue, perform_all-expected,
}

fresh-IsQueue : IsQueue fresh_worker
unfolding fresh_worker
fresh-IsQueue = record {
  positive = omega arith;
  sized = length-replicate max_commands no_command;
  head_in = omega arith;
  bounded = omega arith;
  tail_at = refl;
}

fresh-IsApplyQueue : IsApplyQueue fresh_worker
unfolding fresh_worker
fresh-IsApplyQueue = record {
  positive = omega arith;
  sized = length-replicate max_apply_entries no_entry;
  head_in = omega arith;
  bounded = omega arith;
  tail_at = refl;
}

fresh-IsTracking : IsTracking fresh_worker
unfolding fresh_worker
fresh-IsTracking = record {
  positive = omega arith;
  sized = length-replicate max_commands no_command;
  head_in = omega arith;
  bounded = omega arith;
  tail_at = refl;
}

abbrev requests : List Request
requests =
    submit_node add_node 2 (some (bytes "10.0.0.2")) 7001 none 50
    ∷ submit_kv kv_put (some (bytes "a")) (some (bytes "1")) none 51
    ∷ take_next
    ∷ take_next
    ∷ take_next
    ∷ []

serve_all-fifo_example : serve_all requests fresh_worker ≡ fifo_all requests (queued fresh_worker)
serve_all-fifo_example =
    serve_all-fifo requests fresh_worker (refl, (refl, (tt, (tt, (tt, tt))))) fresh-IsQueue

abbrev steps : List Step
steps = commit 7 (bytes "put a 1") ∷ commit 8 [] ∷ fetch ∷ fetch ∷ fetch ∷ []

perform_all-expected_example :
    perform_all steps fresh_worker ≡ expected_all steps (waiting fresh_worker)
perform_all-expected_example = perform_all-expected steps fresh_worker fresh-IsApplyQueue

abbrev first_command : Command
first_command = record no_command { timestamp = 60 }

abbrev second_command : Command
second_command = record no_command { type = kv_put; timestamp = 60; status = completed }

abbrev one_tracked : Worker
one_tracked = add_command_to_status first_command fresh_worker

one-IsTracking : IsTracking one_tracked
one-IsTracking = (add-tracked first_command fresh_worker fresh-IsTracking).1

one-room : one_tracked.status_commands.count < max_commands
unfolding add_command_to_status push fresh_worker
one-room = omega arith

-- The second command of a second: its completion goes to the first.
track-update_example :
    tracked
      (update_command_status 60 completed none (add_command_to_status second_command one_tracked)).1
    ≡ (if is_found (find (has_time 60) (tracked one_tracked))
        then update_first (has_time 60) (with_status completed none) (tracked one_tracked)
          ++ (second_command ∷ [])
        else tracked one_tracked ++ (with_status completed none second_command ∷ []))
track-update_example =
    track-update second_command completed none one_tracked one-IsTracking one-room

abbrev both_tracked : Worker
both_tracked = add_command_to_status second_command one_tracked

both-IsTracking : IsTracking both_tracked
both-IsTracking = (add-tracked second_command one_tracked one-IsTracking).1

remove-tracked_example :
    tracked (remove_completed_commands both_tracked)
    ≡ drop
        (length (tracked both_tracked) - length (survivors both_tracked))
        (survivors both_tracked ++ drop (length (survivors both_tracked)) (tracked both_tracked))
remove-tracked_example = remove-tracked both_tracked both-IsTracking

both-tracked : tracked both_tracked ≡ first_command ∷ second_command ∷ []
unfolding add_command_to_status push fresh_worker
both-tracked = refl

remove_drops_unfinished_example :
    tracked (remove_completed_commands both_tracked) ≡ second_command ∷ []
unfolding filter is_unfinished
remove_drops_unfinished_example =
    remove_drops_unfinished both_tracked both-IsTracking (first_command ∷ []) (second_command ∷ [])
      both-tracked refl refl (omega arith)
