-- ===== src/Log/Tests.antt =====
-- The theorems on the log at concrete logs.
use pgraft.Base.{
  ℕ, ◌+◌, ◌≤◌, ◌≡◌, ◌≢◌, refl, true, false, some, length, filter, find_index, if◌then◌else◌, ◌==◌,
  ok, fault, bytes, arith,
}
use pgraft.Log.State.{LogState, empty_log}
use pgraft.Log.Ops.{
  in_use, append_entry, commit_entry, apply_entry, cleanup_old_entries, get_entry, has_index,
  find_entry, commit_at, appended,
}
use pgraft.Log.Inv.{IsConsistent}
use pgraft.Log.Steps.{append-IsConsistent}
use pgraft.Log.Moves.{empty-IsConsistent}
use pgraft.Log.Cleanup.{stays, cleanup-filter}
use pgraft.Log.Run.{
  appends, commits, applies, cleans, LogReach, begin, after, LogReach-IsConsistent,
}
use pgraft.Log.Read.{shown, get-append}
use pgraft.Log.Commits.{apply-commit}

abbrev one_entry : LogState
one_entry = (append_entry 100 1 (some (bytes "put a 1")) 7 empty_log).1

one_entry-last : one_entry.last_index ≡ 1
unfolding append_entry
one_entry-last = refl

one_entry-size : one_entry.log_size ≡ 1
unfolding append_entry
one_entry-size = refl

one_entry-IsConsistent : IsConsistent one_entry
one_entry-IsConsistent =
    append-IsConsistent 100 1 (some (bytes "put a 1")) 7 empty_log empty-IsConsistent (omega arith)

one_entry-inside : (append_entry 100 1 (some (bytes "put a 1")) 7 empty_log).0 ≢ fault
unfolding append_entry
one_entry-inside = cc

two_entries-inside : (append_entry 200 1 (some (bytes "del a")) 5 one_entry).0 ≢ fault
unfolding append_entry
two_entries-inside = cc

abbrev two_entries : LogState
two_entries = (append_entry 200 1 (some (bytes "del a")) 5 one_entry).1

history :
    LogReach empty_log (cleanup_old_entries 2 (apply_entry 1 (commit_entry 1 two_entries).1).1)
history =
    after
      (after
        (after
          (after
            (after begin (appends 100 1 (some (bytes "put a 1")) 7 (omega arith) one_entry-inside))
            (appends 200 1 (some (bytes "del a")) 5 (omega (arith, one_entry-last))
              two_entries-inside))
          (commits 1))
        (applies 1))
      (cleans 2)

LogReach-IsConsistent_example :
    IsConsistent (cleanup_old_entries 2 (apply_entry 1 (commit_entry 1 two_entries).1).1)
LogReach-IsConsistent_example = LogReach-IsConsistent history empty-IsConsistent

cleanup-filter_example :
    (in_use (cleanup_old_entries 1 one_entry) ≡ filter (stays 1) (in_use one_entry))
    × ((cleanup_old_entries 1 one_entry).log_size ≤ one_entry.log_size)
    × (length (cleanup_old_entries 1 one_entry).entries ≡ length one_entry.entries)
cleanup-filter_example =
    cleanup-filter 1 one_entry
      (omega (arith, one_entry-IsConsistent.bounded, one_entry-IsConsistent.sized))

get-append_example :
    ((append_entry 200 1 (some (bytes "del a")) 5 one_entry).0 ≡ ok)
    × ((index : ℕ)
        → shown (get_entry index true (append_entry 200 1 (some (bytes "del a")) 5 one_entry).1) ≡ (
            if index == one_entry.last_index + 1
            then (ok, some (one_entry.last_index + 1, 1, bytes "del a", false))
            else shown (get_entry index true one_entry)))
get-append_example =
    get-append 200 1 (bytes "del a") one_entry one_entry-IsConsistent
      (omega (arith, one_entry-last)) (omega (arith, one_entry-size)) (omega arith)

apply-commit_example :
    ((apply_entry 1 (commit_entry 1 one_entry).1).0 ≡ (commit_entry 1 one_entry).0)
    × ((commit_entry 1 one_entry).0 ≡ (get_entry 1 true one_entry).0)
apply-commit_example = apply-commit 1 one_entry one_entry-IsConsistent

commit_runs : (commit_entry 1 one_entry).0 ≡ ok
unfolding commit_entry commit_at find_entry find_index has_index append_entry appended
commit_runs = refl
