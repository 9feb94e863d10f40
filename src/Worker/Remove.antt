-- ===== src/Worker/Remove.antt =====
-- What `pgraft_remove_completed_commands` of src/pgraft_util.c leaves in the status buffer.
use pgraft.Base.{
  ℕ, ◌+◌, ◌-◌, ◌≤◌, ◌≡◌, ◌∙◌, sym, ap, List, [], ◌++◌, take, drop, take-all, take-append-drop,
  length, length-append, drop-append, filter-append, append-nil, length-take, Squeezed,
  squeeze-Squeezed, filter, arith,
}
use mathlib.Core.Path.{ap₂}
use pgraft.Ring.Laws.{length-contents}
use pgraft.Ring.Window.{window, length-window, window-mod, window-drop}
use pgraft.Worker.State.{Command, no_command, max_commands, Worker}
use pgraft.Worker.Statuses.{remove_loop, remove_completed_commands}
use pgraft.Worker.StatusLaws.{tracked, IsTracking}
use pgraft.Worker.RemoveLoop.{is_unfinished, Mirrors, remove_loop-Mirrors}

-- The entries that a cleanup is meant to keep.
abbrev pub survivors : Worker → List Command
survivors w = filter is_unfinished (tracked w)

module _ (w : Worker) (v : IsTracking w) where
  open w use {status_commands}

  abbrev result : List Command × ℕ
  result = remove_loop status_commands.count 0 0 status_commands.head status_commands.slots

  mirrors :
      Mirrors status_commands.count status_commands.head status_commands.count 0 0
        status_commands.slots result
  mirrors =
      remove_loop-Mirrors status_commands.count status_commands.head v.bounded status_commands.count
        0 0 status_commands.slots v.sized (omega arith) (omega arith)

  abbrev entries_after : List Command
  entries_after = window max_commands no_command result.0 status_commands.head status_commands.count

  squeezed :
      Squeezed is_unfinished no_command status_commands.count 0 0
        (tracked w)
        (entries_after, status_commands.count - result.1)
  squeezed = rw mirrors.entries (
      squeeze-Squeezed is_unfinished no_command status_commands.count 0 0 (tracked w) (omega arith)
        (omega (arith, length-contents max_commands no_command status_commands)))

  removed-le : result.1 ≤ status_commands.count
  removed-le = omega (arith, mirrors.within)

  -- The places from the head on hold the survivors, and then what they held before.
  kept_first : take (status_commands.count - result.1) entries_after ≡ survivors w
  kept_first =
      squeezed.kept
      ∙ ap (filter is_unfinished) (
          take-all status_commands.count (tracked w)
            (omega (arith, length-contents max_commands no_command status_commands)))

  kept_count : status_commands.count - result.1 ≡ length (survivors w)
  kept_count = omega (
    arith,
    ap length kept_first,
    length-take (status_commands.count - result.1) entries_after,
    length-window max_commands no_command result.0 status_commands.head status_commands.count,
    removed-le,
  )

  entries_after-eq : entries_after ≡ survivors w ++ drop (length (survivors w)) (tracked w)
  entries_after-eq =
      sym (take-append-drop (status_commands.count - result.1) entries_after)
      ∙ ap₂ ◌++◌ kept_first squeezed.rest
      ∙ ap (λ m. survivors w ++ drop m (tracked w)) kept_count

  -- In a well-formed buffer, a cleanup moves the unfinished entries to the front, over what stood
  -- there, and then drops from the front as many entries as were finished.
  pub remove-tracked :
      tracked (remove_completed_commands w)
      ≡ drop
          (length (tracked w) - length (survivors w))
          (survivors w ++ drop (length (survivors w)) (tracked w))
  unfolding remove_completed_commands
  remove-tracked =
      window-mod max_commands no_command result.0 (status_commands.head + result.1)
        (status_commands.count - result.1) v.positive
      ∙ sym (
          window-drop max_commands no_command result.0 status_commands.head status_commands.count
            result.1 removed-le)
      ∙ ap₂ drop
          (let e : result.1 ≡ length (tracked w) - length (survivors w) = omega (
            arith,
            kept_count,
            removed-le,
            length-contents max_commands no_command status_commands,
          ) in
            e)
          entries_after-eq

  -- Where unfinished commands stand before as many finished ones or more, a cleanup drops every
  -- unfinished command and keeps finished ones.
  pub remove_drops_unfinished :
      (live done : List Command)
      → tracked w ≡ live ++ done
      → filter is_unfinished live ≡ live
      → filter is_unfinished done ≡ []
      → length live ≤ length done
      → tracked (remove_completed_commands w) ≡ drop (length done - length live) done
  remove_drops_unfinished live done e l d le =
      remove-tracked
      ∙ rw (alive, e, drop-append live done (length live) 0 (omega arith), length-append live done)
          (drop-append live done _ (length done - length live) (omega arith))
    where
      alive : survivors w ≡ live
      alive =
          ap (filter is_unfinished) e
          ∙ filter-append is_unfinished live done
          ∙ ap₂ ◌++◌ l d
          ∙ append-nil live
