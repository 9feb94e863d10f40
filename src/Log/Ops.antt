-- ===== src/Log/Ops.antt =====
-- The operations of src/pgraft_log.c. The log pointer is never NULL, since `ShmemInitStruct` is
-- not. An output argument that is NULL is the Boolean `false`.
use pgraft.Base.{
  ℕ, zero, suc, ◌+◌, ◌-◌, Bool, true, false, not, Option, none, some, List, ◌++◌, leb, ◌==◌,
  if◌then◌else◌, get_or, set, take, drop, find_index, count, shift_down, add64, lt64, lt32, widen,
  Status, ok, fail, raised, fault,
}
use pgraft.Log.State.{LogEntry, LogState, blank_entry, max_data, max_log, empty_log}

-- The argument is the log of another process, or `none` where `found` comes back false.
unfoldable pub init_log : Option LogState → LogState
init_log none = empty_log
init_log (some st) = st

-- The entries that the loops visit, `i < log_size`.
abbrev pub in_use : LogState → List LogEntry
in_use st = take st.log_size st.entries

unfoldable pub has_index : ℕ → LogEntry → Bool
has_index index e = e.index == index

-- `for (i = 0; i < log_size; i++) if (entries[i].index == index)`
unfoldable pub find_entry : ℕ → LogState → Option ℕ
find_entry index st = find_index (has_index index) (in_use st)

-- `if (data && data_size > 0) memcpy(entry->data, data, data_size);`
abbrev pub copy_data : Option (List ℕ) → ℕ → List ℕ → List ℕ
copy_data none size old = old
copy_data (some input) size old = if lt32 0 size then take size input ++ drop size old else old

-- The slot, up to the terminator at `data[data_size]`.
unfoldable pub appended : ℕ → ℕ → Option (List ℕ) → ℕ → ℕ → LogEntry → LogEntry
appended now term input size index old = record {
  index = index;
  term = term;
  timestamp = now;
  payload = set (copy_data input size old.payload) size 0;
  data_size = size;
  committed = false;
  applied = false;
}

-- The terminator is outside the array where `data_size` is 1024 or negative.
unfoldable pub append_entry : ℕ → ℕ → Option (List ℕ) → ℕ → LogState → Status × LogState
append_entry now term input size st =
    if lt32 max_data size
    then (raised, st)
    else if leb max_log st.log_size
    then (raised, st)
    else if leb max_data size
    then (fault, st)
    else (
      ok,
      record st {
        entries = set st.entries st.log_size (
            appended now term input size (add64 st.last_index 1)
              (get_or st.entries st.log_size blank_entry));
        log_size = st.log_size + 1;
        last_index = add64 st.last_index 1;
      },
    )

-- `if (index > high) high = index;`
abbrev pub raise_to : ℕ → ℕ → ℕ
raise_to index high = if lt64 high index then index else high

unfoldable pub commit_at : ℕ → LogState → Option ℕ → Status × LogState
commit_at index st none = (fail, st)
commit_at index st (some i) = (
  ok,
  record st {
    entries = set st.entries i (record (get_or st.entries i blank_entry) { committed = true });
    commit_index = raise_to index st.commit_index;
    entries_committed = add64 st.entries_committed 1;
  },
)

unfoldable pub commit_entry : ℕ → LogState → Status × LogState
commit_entry index st = commit_at index st (find_entry index st)

unfoldable pub apply_at : ℕ → LogState → Option ℕ → Status × LogState
apply_at index st none = (fail, st)
apply_at index st (some i) =
    if not (get_or st.entries i blank_entry).committed then (fail, st) else (
      ok,
      record st {
        entries = set st.entries i (record (get_or st.entries i blank_entry) { applied = true });
        last_applied = raise_to index st.last_applied;
        entries_applied = add64 st.entries_applied 1;
      },
    )

unfoldable pub apply_entry : ℕ → LogState → Status × LogState
apply_entry index st = apply_at index st (find_entry index st)

-- `wanted` is false where the caller passes NULL for the entry.
unfoldable pub get_entry : ℕ → Bool → LogState → Status × Option LogEntry
get_entry index false st = (raised, none)
get_entry index true st = elim (find_entry index st) [
  | none ↦ (fail, none)
  | some i ↦ (ok, some (get_or st.entries i blank_entry))
]

unfoldable pub get_last_index : Bool → LogState → Status × Option ℕ
get_last_index false st = (raised, none)
get_last_index true st = (ok, some st.last_index)

unfoldable pub get_commit_index : Bool → LogState → Status × Option ℕ
get_commit_index false st = (raised, none)
get_commit_index true st = (ok, some st.commit_index)

unfoldable pub get_last_applied : Bool → LogState → Status × Option ℕ
get_last_applied false st = (raised, none)
get_last_applied true st = (ok, some st.last_applied)

unfoldable pub get_statistics : Bool → LogState → Status × Option LogState
get_statistics false st = (raised, none)
get_statistics true st = (ok, some st)

unfoldable pub is_from : ℕ → LogEntry → Bool
is_from from_index e = not (lt64 e.index from_index)

-- The node is only named in the messages.
unfoldable pub replicate_to_node : ℕ → LogState → Status × LogState
replicate_to_node from_index st = (
  ok,
  record st {
    entries_replicated = add64 st.entries_replicated (count (is_from from_index) (in_use st));
  },
)

-- The Go library's function for it, where it is loaded, and what it answers.
unfoldable pub replicate_from_leader : Option (ℕ → ℕ → ℕ) → ℕ → ℕ → Status
replicate_from_leader none leader_id from_index = fail
replicate_from_leader (some log_replicate) leader_id from_index =
    if log_replicate (widen leader_id) from_index == 0 then ok else fail

unfoldable pub sync_with_leader : LogState → Status × LogState
sync_with_leader st = (ok, st)

-- The outer loop, with the rounds left: `log_size - i` at first, and one less after each round,
-- which either moves `i` up or takes one entry out and stays at `i`.
unfoldable pub cleanup_loop : ℕ → ℕ → ℕ → ℕ → List LogEntry → List LogEntry × ℕ
cleanup_loop zero i log_size before_index es = (es, log_size)
cleanup_loop (suc rounds) i log_size before_index es =
    elim (lt64 (get_or es i blank_entry).index before_index) [
      | true ↦
          cleanup_loop rounds i (log_size - 1) before_index
            (shift_down blank_entry (log_size - 1 - i) i es)
      | false ↦ cleanup_loop rounds (i + 1) log_size before_index es
    ]

unfoldable pub cleanup_old_entries : ℕ → LogState → LogState
cleanup_old_entries before_index st =
    let (es, log_size) = cleanup_loop st.log_size 0 st.log_size before_index st.entries in
    record st { entries = es; log_size = log_size }

-- The entries stay in the array.
unfoldable pub reset_log : LogState → LogState
reset_log st = record st {
  log_size = 0;
  last_index = 0;
  commit_index = 0;
  last_applied = 0;
  entries_replicated = 0;
  entries_committed = 0;
  entries_applied = 0;
  replication_errors = 0;
}
