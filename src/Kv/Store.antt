-- ===== src/Kv/Store.antt =====
-- include/pgraft_kv.h and the operations of src/pgraft_kv.c on the store that stand between
-- taking its spinlock and releasing it. Each is one atomic step, since the lock is held throughout.
use pgraft.Base.{
  ℕ, ◌+◌, ◌-◌, Bool, true, false, not, ◌&&◌, Option, none, some, List, [], leb, ◌==◌, if◌then◌else◌,
  length, get_or, set, take, replicate, find_index, add64, CString, text_eq, copy_text, Status, ok,
  fail, raised, fault,
}

pub record Entry : Type 0 where
  pub key : CString
  pub value : CString
  pub version : ℕ
  pub created_at : ℕ
  pub updated_at : ℕ
  pub log_index : ℕ
  pub deleted : Bool

-- What `memset` to zero leaves in an entry.
abbrev pub blank : Entry
blank = record {
  key = [];
  value = [];
  version = 0;
  created_at = 0;
  updated_at = 0;
  log_index = 0;
  deleted = false;
}

abbrev pub max_entries : ℕ
max_entries = 1000

pub record Store : Type 0 where
  pub entries : List Entry
  pub num_entries : ℕ
  pub total_operations : ℕ
  pub last_applied_index : ℕ
  pub puts : ℕ
  pub deletes : ℕ
  pub gets : ℕ

abbrev pub zeroed : Store
zeroed = record {
  entries = replicate max_entries blank;
  num_entries = 0;
  total_operations = 0;
  last_applied_index = 0;
  puts = 0;
  deletes = 0;
  gets = 0;
}

-- The slots that the loops visit, `i < num_entries`.
abbrev pub slots : Store → List Entry
slots st = take st.num_entries st.entries

unfoldable pub is_match : CString → Entry → Bool
is_match key e = not e.deleted && text_eq e.key key

unfoldable pub find_entry_index : Store → CString → Option ℕ
find_entry_index st key = find_index (is_match key) (slots st)

abbrev pub updated_entry : ℕ → CString → ℕ → Entry → Entry
updated_entry now value log_index e = record e {
  value = copy_text 1023 value;
  version = add64 e.version 1;
  updated_at = now;
  log_index = log_index;
  deleted = false;
}

abbrev pub new_entry : ℕ → CString → CString → ℕ → Entry
new_entry now key value log_index = record {
  key = copy_text 255 key;
  value = copy_text 1023 value;
  version = 1;
  created_at = now;
  updated_at = now;
  log_index = log_index;
  deleted = false;
}

abbrev pub count_put : ℕ → Store → Store
count_put log_index st = record st {
  puts = add64 st.puts 1;
  total_operations = add64 st.total_operations 1;
  last_applied_index = log_index;
}

-- The two branches on `entry_index >= 0`. The guard keeps `num_entries++` below 2 ^ 31.
unfoldable pub put_at : ℕ → CString → CString → ℕ → Store → Option ℕ → Status × Store
put_at now key value log_index st (some i) = (
  ok,
  count_put log_index (record st {
    entries = set st.entries i (updated_entry now value log_index (get_or st.entries i blank));
  }),
)
put_at now key value log_index st none = if leb max_entries st.num_entries then (raised, st) else (
  ok,
  count_put log_index (record st {
    entries = set st.entries st.num_entries (new_entry now key value log_index);
    num_entries = st.num_entries + 1;
  }),
)

unfoldable pub put_store : ℕ → CString → CString → ℕ → Store → Status × Store
put_store now key value log_index st =
    if leb 256 (length key)
    then (raised, st)
    else if leb 1024 (length value)
    then (raised, st)
    else put_at now key value log_index st (find_entry_index st key)

-- `value_size - 1` wraps at 0, and `strncpy` then runs through the caller's memory.
unfoldable pub get_at : ℕ → Store → Option ℕ → Status × Option (CString × ℕ) × Store
get_at value_size st none = (fail, none, st)
get_at value_size st (some i) = if value_size == 0 then (fault, none, st) else (
  ok,
  some (
    copy_text (value_size - 1) (get_or st.entries i blank).value,
    (get_or st.entries i blank).version,
  ),
  record st { gets = add64 st.gets 1; total_operations = add64 st.total_operations 1 },
)

unfoldable pub get_store : CString → ℕ → Store → Status × Option (CString × ℕ) × Store
get_store key value_size st = get_at value_size st (find_entry_index st key)

abbrev pub deleted_entry : ℕ → ℕ → Entry → Entry
deleted_entry now log_index e = record e {
  deleted = true;
  updated_at = now;
  log_index = log_index;
  version = add64 e.version 1;
}

unfoldable pub delete_at : ℕ → ℕ → Store → Option ℕ → Status × Store
delete_at now log_index st none = (fail, st)
delete_at now log_index st (some i) = (
  ok,
  record st {
    entries = set st.entries i (deleted_entry now log_index (get_or st.entries i blank));
    deletes = add64 st.deletes 1;
    total_operations = add64 st.total_operations 1;
    last_applied_index = log_index;
  },
)

unfoldable pub delete_store : ℕ → CString → ℕ → Store → Status × Store
delete_store now key log_index st = delete_at now log_index st (find_entry_index st key)
