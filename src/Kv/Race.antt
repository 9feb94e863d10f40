-- ===== src/Kv/Race.antt =====
-- A RESET of src/pgraft_kv.c that another process's PUT parts.
use pgraft.Base.{ℕ, CString}
use pgraft.Kv.Store.{Store, put_store}
use pgraft.Kv.Maintain.{reset_store}
use pgraft.Kv.Service.{Kv, save_to_disk, locked, unlink_file}
use pgraft.Kv.Durable.{success}

-- RESET clears the store under the lock; a PUT takes the lock, changes the store and saves it; then
-- RESET removes the file.
unfoldable pub parted_reset : ℕ → CString → CString → ℕ → Kv → Store → Kv
parted_reset now key value log_index k st =
    let cleared : Kv = locked (reset_store st) k in
    let put_in : Kv = locked (put_store now key value log_index (reset_store st)).1 cleared in
    unlink_file (success now) (save_to_disk (success now) put_in).1
