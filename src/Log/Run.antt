-- ===== src/Log/Run.antt =====
-- Every history of the log of src/pgraft_log.c.
use pgraft.Base.{ℕ, ◌+◌, ◌<◌, ◌≢◌, Option, List, two63, fault}
use pgraft.Log.State.{LogState}
use pgraft.Log.Ops.{
  append_entry, commit_entry, apply_entry, replicate_to_node, sync_with_leader, cleanup_old_entries,
  reset_log,
}
use pgraft.Log.Inv.{IsConsistent}
use pgraft.Log.Steps.{append-IsConsistent}
use pgraft.Log.Moves.{
  commit-IsConsistent, apply-IsConsistent, cleanup-IsConsistent, replicate-IsConsistent,
  reset-IsConsistent,
}

-- One call by any process. The lock makes the calls one after another. An append happens while the
-- last index is below 2 ^ 63 - 1, and has no size for which the code writes outside the entry's
-- array: what the memory is after such a write is not defined, so no history goes on from it.
pub data LogStep (st : LogState) : LogState → Type 0 where
  appends :
      (now term : ℕ) (input : Option (List ℕ)) (size : ℕ)
      → st.last_index + 1 < two63
      → (append_entry now term input size st).0 ≢ fault
      → LogStep st (append_entry now term input size st).1
  commits : (index : ℕ) → LogStep st (commit_entry index st).1
  applies : (index : ℕ) → LogStep st (apply_entry index st).1
  replicates : (from_index : ℕ) → LogStep st (replicate_to_node from_index st).1
  syncs : LogStep st (sync_with_leader st).1
  cleans : (before_index : ℕ) → LogStep st (cleanup_old_entries before_index st)
  resets : LogStep st (reset_log st)

pub data LogReach (st : LogState) : LogState → Type 0 where
  begin : LogReach st st
  after : {a b : LogState} → LogReach st a → LogStep a b → LogReach st b

LogStep-IsConsistent : {st st' : LogState} → LogStep st st' → IsConsistent st → IsConsistent st'
unfolding sync_with_leader
LogStep-IsConsistent {st} (appends now term input size small inside) c =
    append-IsConsistent now term input size st c small
LogStep-IsConsistent {st} (commits index) c = commit-IsConsistent index st c
LogStep-IsConsistent {st} (applies index) c = apply-IsConsistent index st c
LogStep-IsConsistent {st} (replicates from_index) c = replicate-IsConsistent from_index st c
LogStep-IsConsistent {st} syncs c = c
LogStep-IsConsistent {st} (cleans before_index) c = cleanup-IsConsistent before_index st c
LogStep-IsConsistent {st} resets c = reset-IsConsistent st c

-- Whatever calls are made, in whatever order, from a consistent log, where no append has a negative
-- size or the size 1024 while there is room, and the last index is below 2 ^ 63 - 1 before each append,
-- the log stays consistent: at most 1000 entries, whose indices count up by one to the last index;
-- every applied entry is committed, every committed index is at most the commit index, every applied
-- one at most last_applied, and last_applied <= commit_index <= last_index.
pub LogReach-IsConsistent :
    {st st' : LogState} → LogReach st st' → IsConsistent st → IsConsistent st'
LogReach-IsConsistent begin c = c
LogReach-IsConsistent (after r s) c = LogStep-IsConsistent s (LogReach-IsConsistent r c)
