-- ===== src/Kv/Maintain.antt =====
-- What `pgraft_kv_compact`, `pgraft_kv_reset` and `pgraft_kv_load_from_disk` of src/pgraft_kv.c do
-- to the store under its lock.
use pgraft.Base.{
  ℕ, zero, suc, ◌+◌, ◌-◌, List, true, false, ◌==◌, if◌then◌else◌, get_or, set, replicate,
}
use pgraft.Kv.Store.{Entry, Store, blank, max_entries}

-- `for (; i < num_entries; i++)` with the rounds left: live entries move down to `j`.
unfoldable pub move_live : ℕ → ℕ → ℕ → List Entry → List Entry × ℕ
move_live zero i j es = (es, j)
move_live (suc rounds) i j es =
    let e = get_or es i blank in
    elim e.deleted [
      | true ↦ move_live rounds (i + 1) j es
      | false ↦ move_live rounds (i + 1) (j + 1) (if i == j then es else set es j e)
    ]

-- `for (i = j; i < num_entries; i++) memset(&entries[i], 0, ...)`
unfoldable pub clear_rest : ℕ → ℕ → List Entry → List Entry
clear_rest zero i es = es
clear_rest (suc rounds) i es = clear_rest rounds (i + 1) (set es i blank)

unfoldable pub compact_store : Store → Store
compact_store st =
    let (es, j) = move_live st.num_entries 0 0 st.entries in
    record st { entries = clear_rest (st.num_entries - j) j es; num_entries = j }

unfoldable pub reset_store : Store → Store
reset_store st = record st {
  entries = replicate max_entries blank;
  num_entries = 0;
  total_operations = 0;
  last_applied_index = 0;
  puts = 0;
  deletes = 0;
  gets = 0;
}

-- Every field but the mutex, which the model leaves out, is copied from the file's image.
unfoldable pub load_image : Store → Store → Store
load_image image st = record st {
  entries = image.entries;
  num_entries = image.num_entries;
  total_operations = image.total_operations;
  last_applied_index = image.last_applied_index;
  puts = image.puts;
  deletes = image.deletes;
  gets = image.gets;
}
