-- ===== src/Kv/Service.antt =====
-- The entry points of src/pgraft_kv.c: null arguments, the store's pointer, and the file that
-- holds the store's image.
use pgraft.Base.{
  ℕ, Bool, true, false, Option, none, some, List, if◌then◌else◌, filter, map, CString, Status, ok,
  fail, raised,
}
use pgraft.Kv.Store.{
  Entry, Store, zeroed, slots, find_entry_index, put_store, get_store, delete_store,
}
use pgraft.Kv.Maintain.{compact_store, reset_store, load_image}
use pgraft.Kv.View.{is_live}

-- What the operating system answers during one call: the clock, and whether `fopen`, the transfer
-- of the whole structure (`fwrite` or `fread`) and `unlink` succeed.
pub record Io : Type 0 where
  pub now : ℕ
  pub opens : Bool
  pub transfers : Bool
  pub unlinks : Bool

-- The file of PGRAFT_KV_PERSIST_FILE. `short` is what a failed `fwrite` leaves.
pub data Disk : Type 0 where
  absent short : Disk
  image : Store → Disk

-- `g_kv_store` with what it points to (`none` for NULL), and the file.
pub record Kv : Type 0 where
  pub store : Option Store
  pub disk : Disk

written : Io → Store → Kv → Status × Kv
written io st k =
    if io.opens
    then if io.transfers
      then (ok, record k { disk = image st })
      else (fail, record k { disk = short })
    else (fail, k)

-- `fopen` with "wb" has truncated the file when `fwrite` fails.
unfoldable pub save_to_disk : Io → Kv → Status × Kv
unfolding written
save_to_disk io k = elim k.store [ none ↦ (fail, k) | some st ↦ written io st k ]

read_image : Io → Store → Disk → Status × Store
read_image io st absent = (fail, st)
read_image io st short = (fail, st)
read_image io st (image saved) =
    if io.opens then if io.transfers then (ok, load_image saved st) else (fail, st) else (fail, st)

unfoldable pub load_from_disk : Io → Kv → Status × Kv
unfolding read_image
load_from_disk io k = elim k.store [
  | none ↦ (fail, k)
  | some st ↦ let (s, st') = read_image io st k.disk in (s, record k { store = some st' })
]

-- The second argument is what `ShmemInitStruct` yields: the structure of another process, or
-- `none` where `found` comes back false.
unfoldable pub init_shared_memory : Io → Option Store → Kv → Kv
init_shared_memory io (some st) k = record k { store = some st }
init_shared_memory io none k = (load_from_disk io (record k { store = some zeroed })).1

-- The store as a section under the lock leaves it, and the removal of the file, which stands outside
-- the lock.
abbrev pub locked : Store → Kv → Kv
locked st k = record k { store = some st }

abbrev pub unlink_file : Io → Kv → Kv
unlink_file io k = record k { disk = if io.unlinks then absent else k.disk }

-- The end of PUT and DELETE: the section under the lock leaves its result and the store, and then,
-- in a second section, the save writes the store as it stands. The result of the save is not read.
-- `put`, `delete`, `compact` and `reset` are the calls that no other process's section parts;
-- Kv.Run has the sections one by one.
unfoldable pub persist : Io → Status × Store → Kv → Status × Kv
persist io (ok, st) k = (ok, (save_to_disk io (locked st k)).1)
persist io (s, st) k = (s, locked st k)

unfoldable pub put : Io → Option CString → Option CString → ℕ → Kv → Status × Kv
unfolding persist
put io none value log_index k = (raised, k)
put io (some key) none log_index k = (raised, k)
put io (some key) (some value) log_index k = elim k.store [
  | none ↦ (raised, k)
  | some st ↦ persist io (put_store io.now key value log_index st) k
]

unfoldable pub delete : Io → Option CString → ℕ → Kv → Status × Kv
unfolding persist
delete io none log_index k = (raised, k)
delete io (some key) log_index k = elim k.store [
  | none ↦ (raised, k)
  | some st ↦ persist io (delete_store io.now key log_index st) k
]

unfoldable pub get : Option CString → ℕ → Kv → Status × Option (CString × ℕ) × Kv
get none value_size k = (raised, none, k)
get (some key) value_size k = elim k.store [
  | none ↦ (raised, none, k)
  | some st ↦
      let (s, out, st') = get_store key value_size st in (s, out, record k { store = some st' })
]

unfoldable pub exists : Option CString → Kv → Bool
exists none k = false
exists (some key) k = elim k.store [
  | none ↦ false
  | some st ↦ elim (find_entry_index st key) [ none ↦ false | some i ↦ true ]
]

unfoldable pub get_stats : Kv → Option Store
get_stats k = k.store

unfoldable pub compact : Io → Kv → Kv
compact io k = elim k.store [
  | none ↦ k
  | some st ↦ (save_to_disk io (locked (compact_store st) k)).1
]

unfoldable pub reset : Io → Kv → Kv
reset io k = elim k.store [ none ↦ k | some st ↦ unlink_file io (locked (reset_store st) k) ]

-- `pgraft_kv_op_type_t`; the log never holds a GET.
pub data OpType : Type 0 where
  kv_put kv_delete kv_get : OpType

-- `pgraft_kv_log_entry_t`, less the timestamp and the client, which are not read.
pub record LogEntry : Type 0 where
  pub op_type : OpType
  pub key : CString
  pub value : CString

unfoldable pub dispatch : Io → LogEntry → ℕ → Kv → OpType → Status × Kv
dispatch io e log_index k kv_put = put io (some e.key) (some e.value) log_index k
dispatch io e log_index k kv_delete = delete io (some e.key) log_index k
dispatch io e log_index k kv_get = (fail, k)

unfoldable pub apply_log_entry : Io → Option LogEntry → ℕ → Kv → Status × Kv
unfolding dispatch
apply_log_entry io none log_index k = (fail, k)
apply_log_entry io (some e) log_index k = dispatch io e log_index k e.op_type

-- The apply callback's entry points pass 0 for the log index.
unfoldable pub put_local : Io → Option CString → Option CString → Kv → Status × Kv
put_local io key value k = put io key value 0 k

unfoldable pub delete_local : Io → Option CString → Kv → Status × Kv
delete_local io key k = delete io key 0 k

-- The keys that `pgraft_json_create_key_list` puts into its array.
unfoldable pub listed_keys : Store → List CString
listed_keys st = map (λ (e : Entry). e.key) (filter is_live (slots st))
