-- ===== src/Kv/Tests.antt =====
-- Concrete stores, runs of the operations of src/pgraft_kv.c on them, and instances of the theorems.
use pgraft.Base.{
  ℕ, ◌+◌, ◌≡◌, ◌≢◌, refl, true, false, none, some, List, [], ◌∷◌, CString, bytes, replicate,
  text_eq, count, bit, ok, fail, raised, arith, find_index, find, not, if◌then◌else◌,
}
use pgraft.Kv.Store.{
  Store, zeroed, put_store, put_at, delete_store, delete_at, get_store, find_entry_index, is_match,
}
use pgraft.Kv.Maintain.{compact_store, move_live, clear_rest}
use pgraft.Kv.View.{view, IsValid, live_count, is_unbound, next_version}
use pgraft.Kv.Put.{put_accepts, put-status, put-view, put-IsValid}
use pgraft.Kv.Delete.{delete-view, delete-IsValid}
use pgraft.Kv.Get.{found_value, get-view}
use pgraft.Kv.Compact.{compact-view}
use pgraft.Kv.Service.{
  Io, absent, Kv, persist, save_to_disk, apply_log_entry, put, delete, kv_put, kv_delete, LogEntry,
  listed_keys, exists,
}
use pgraft.Kv.Run.{zeroed-IsSound, KvHolds, puts, here, next, Reach-holds}
use pgraft.Kv.Replica.{apply_all, replicated, apply_all-agree}
use pgraft.Kv.Durable.{
  success, Call, put_call, delete_call, perform, run, restart, view_of, restart-view,
}
use pgraft.Kv.Client.{server}
use pgraft.Kv.Keys.{listed-bound}

abbrev alpha : CString
alpha = bytes "alpha"

abbrev beta : CString
beta = bytes "beta"

-- "alpha" is put, updated and deleted, and "beta" is put.
abbrev one : Store
one = (put_store 5 alpha (bytes "1") 1 zeroed).1

abbrev two : Store
two = (put_store 6 beta (bytes "2") 2 one).1

abbrev tombstone : Store
tombstone = (delete_store 7 alpha 3 two).1

one-view : view one alpha ≡ some (bytes "1", 1)
unfolding put_store put_at find_entry_index find_index find is_match text_eq
one-view = refl

tombstone_hides : view tombstone alpha ≡ none
unfolding delete_store delete_at put_store put_at find_entry_index find_index find is_match text_eq
tombstone_hides = refl

one-IsValid : IsValid one
one-IsValid = put-IsValid 5 alpha (bytes "1") 1 zeroed zeroed-IsSound.valid

two-IsValid : IsValid two
two-IsValid = put-IsValid 6 beta (bytes "2") 2 one one-IsValid

one-accepts : put_accepts alpha (bytes "3") one ≡ true
unfolding put_store put_at find_entry_index find_index find is_match text_eq
one-accepts = refl

update-ok : (put_store 8 alpha (bytes "3") 4 one).0 ≡ ok
unfolding put_store put_at find_entry_index find_index find is_match text_eq
update-ok = refl

-- A key of 256 bytes.
abbrev long_key : CString
long_key = replicate 256 b'k'

put-status_example :
    ((put_store 8 long_key (bytes "3") 4 one).0
      ≡ (if put_accepts long_key (bytes "3") one then ok else raised))
    × ((put_accepts long_key (bytes "3") one ≡ false)
        → (put_store 8 long_key (bytes "3") 4 one).1 ≡ one)
put-status_example = put-status 8 long_key (bytes "3") 4 one

put-view_example : view (put_store 8 alpha (bytes "3") 4 one).1 beta ≡ (
    if text_eq alpha beta then some (bytes "3", next_version (view one alpha)) else view one beta)
put-view_example = put-view 8 alpha (bytes "3") 4 one one-IsValid update-ok beta

delete-view_example :
    ((delete_store 7 alpha 3 two).0 ≡ (if is_unbound (view two alpha) then fail else ok))
    × ((j : CString)
        → view (delete_store 7 alpha 3 two).1 j ≡ (if text_eq alpha j then none else view two j))
    × (view two alpha ≡ none → (delete_store 7 alpha 3 two).1 ≡ two)
delete-view_example = delete-view 7 alpha 3 two two-IsValid

get-view_example :
    (((get_store alpha 1024 two).0 ≡ (if is_unbound (view two alpha) then fail else ok))
      × ((get_store alpha 1024 two).1 ≡ found_value 1024 (view two alpha)))
    × ((get_store alpha 1024 two).2.entries ≡ two.entries)
    × ((get_store alpha 1024 two).2.num_entries ≡ two.num_entries)
get-view_example = get-view alpha 1024 two (omega arith)

compact-view_example :
    ((key : CString) → view (compact_store tombstone) key ≡ view tombstone key)
    × IsValid (compact_store tombstone)
    × ((compact_store tombstone).num_entries ≡ live_count tombstone)
compact-view_example = compact-view tombstone (delete-IsValid 7 alpha 3 two two-IsValid)

tombstone_compacted : (compact_store tombstone).num_entries ≡ 1
unfolding compact_store move_live clear_rest delete_store delete_at put_store put_at
    find_entry_index find_index find is_match text_eq
tombstone_compacted = refl

abbrev empty_server : Kv
empty_server = record { store = some zeroed; disk = absent }

Reach-holds_example : KvHolds (put (success 5) (some alpha) (some (bytes "1")) 1 empty_server).1
Reach-holds_example =
    Reach-holds {k = empty_server} (zeroed-IsSound, tt)
      (next here (puts (success 5) (some alpha) (some (bytes "1")) 1))

abbrev history : List (ℕ × Call)
history = (5, put_call (some alpha) (some (bytes "1")) 1) ∷ (6, delete_call (some beta) 2) ∷ []

history-store : (run history empty_server).store ≢ none
unfolding run perform put delete persist save_to_disk put_store put_at delete_store delete_at
    find_entry_index find_index is_match text_eq
history-store e = cc

restart-view_example :
    view_of (restart 9 (run history empty_server)).store alpha
    ≡ view_of (run history empty_server).store alpha
restart-view_example =
    restart-view history empty_server 9 (record { same_entries = refl; same_num = refl })
      history-store alpha

abbrev entry_log : List LogEntry
entry_log =
    record { op_type = kv_put; key = alpha; value = bytes "1" }
    ∷ record { op_type = kv_delete; key = alpha; value = [] }
    ∷ record { op_type = kv_delete; key = beta; value = [] }
    ∷ []

-- The second replica's clock is behind, and its file cannot be opened.
abbrev other_io : ℕ → Io
other_io i = record { now = i; opens = false; transfers = false; unlinks = false }

apply_all-agree_example :
    ((apply_all (λ i. success (100 + i)) 1 entry_log empty_server).0
      ≡ (apply_all other_io 1 entry_log empty_server).0)
    × (replicated (apply_all (λ i. success (100 + i)) 1 entry_log empty_server).1
        ≡ replicated (apply_all other_io 1 entry_log empty_server).1)
apply_all-agree_example =
    apply_all-agree entry_log 1 (λ i. success (100 + i)) other_io empty_server empty_server refl

apply_all_runs : (apply_all other_io 1 entry_log empty_server).0 ≡ ok ∷ ok ∷ fail ∷ []
unfolding apply_all apply_log_entry put delete persist save_to_disk put_store put_at delete_store
    delete_at find_entry_index find_index find is_match text_eq
apply_all_runs = refl

update-accepted : (put (success 8) (some alpha) (some (bytes "3")) 4 (server one absent)).0 ≡ ok
unfolding put put_store put_at find_entry_index find_index is_match text_eq
update-accepted = refl

listed-bound_example :
    (count (λ k. text_eq k alpha) (listed_keys two) ≡ bit (not (is_unbound (view two alpha))))
    × (exists (some alpha) (record { store = some two; disk = absent })
        ≡ not (is_unbound (view two alpha)))
listed-bound_example = listed-bound alpha two absent two-IsValid
