-- ===== src/Log/State.antt =====
-- include/pgraft_log.h. Indices, terms, times and counters are the 64 bits of an `int64_t`. The
-- flags are `int32_t` fields that only ever hold 0 or 1.
use pgraft.Base.{ℕ, Bool, false, List, replicate}

pub record LogEntry : Type 0 where
  pub index : ℕ
  pub term : ℕ
  pub timestamp : ℕ
  pub payload : List ℕ
  pub data_size : ℕ
  pub committed : Bool
  pub applied : Bool

-- `sizeof(entry->data)`.
abbrev pub max_data : ℕ
max_data = 1024

abbrev pub max_log : ℕ
max_log = 1000

-- What `memset` to zero leaves in an entry.
abbrev pub blank_entry : LogEntry
blank_entry = record {
  index = 0;
  term = 0;
  timestamp = 0;
  payload = replicate max_data 0;
  data_size = 0;
  committed = false;
  applied = false;
}

-- The spinlock is left out: each operation holds it throughout.
pub record LogState : Type 0 where
  pub entries : List LogEntry
  pub log_size : ℕ
  pub last_index : ℕ
  pub commit_index : ℕ
  pub last_applied : ℕ
  pub entries_replicated : ℕ
  pub entries_committed : ℕ
  pub entries_applied : ℕ
  pub replication_errors : ℕ

-- New shared memory.
abbrev pub empty_log : LogState
empty_log = record {
  entries = replicate max_log blank_entry;
  log_size = 0;
  last_index = 0;
  commit_index = 0;
  last_applied = 0;
  entries_replicated = 0;
  entries_committed = 0;
  entries_applied = 0;
  replication_errors = 0;
}
