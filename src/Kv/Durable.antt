-- ===== src/Kv/Durable.antt =====
-- The file of src/pgraft_kv.c against the store: what a restart of the server finds.
use pgraft.Base.{
  ℕ, ◌≡◌, ◌∙◌, refl, sym, true, Option, none, some, List, [], ◌∷◌, CString, Status, ok, fail,
  raised, fault, Bool-cases, inl, inr, ◌==◌, ◌≢◌, ◌⊎◌, leb, length,
}
use pgraft.Kv.Store.{
  Store, zeroed, put_store, max_entries, put_at, get_store, get_at, delete_store, delete_at,
  find_entry_index,
}
use pgraft.Kv.Maintain.{compact_store, reset_store, load_image}
use pgraft.Kv.View.{view}
use pgraft.Kv.Service.{
  Io, Disk, absent, short, image, Kv, save_to_disk, load_from_disk, init_shared_memory, persist,
  put, delete, get, compact, reset,
}

-- Calls to the file system that all succeed, at a time.
abbrev pub success : ℕ → Io
success now = record { now = now; opens = true; transfers = true; unlinks = true }

pub data Call : Type 0 where
  put_call : Option CString → Option CString → ℕ → Call
  delete_call : Option CString → ℕ → Call
  get_call : Option CString → ℕ → Call
  compact_call reset_call : Call

unfoldable pub perform : ℕ → Call → Kv → Kv
perform now (put_call key value li) k = (put (success now) key value li k).1
perform now (delete_call key li) k = (delete (success now) key li k).1
perform now (get_call key size) k = (get key size k).2
perform now compact_call k = compact (success now) k
perform now reset_call k = reset (success now) k

-- A history of calls that do not overlap, each with the time of it.
unfoldable pub run : List (ℕ × Call) → Kv → Kv
run [] k = k
run ((now, c) ∷ calls) k = run calls (perform now c k)

-- What a client can tell of a server.
abbrev pub view_of : Option Store → CString → Option (CString × ℕ)
view_of none key = none
view_of (some st) key = view st key

-- The store that a restart loads.
abbrev pub recovered : Disk → Store
recovered absent = zeroed
recovered short = zeroed
recovered (image st) = st

pub record SameSlots (s t : Store) : Type 0 where
  pub same_entries : s.entries ≡ t.entries
  pub same_num : s.num_entries ≡ t.num_entries

abbrev pub IsDurable : Kv → Type 0
IsDurable k = elim k.store [ none ↦ Unit | some st ↦ SameSlots (recovered k.disk) st ]

SameSlots-refl : (st : Store) → SameSlots st st
SameSlots-refl st = record { same_entries = refl; same_num = refl }

get_at-SameSlots :
    (size : ℕ) (r st : Store) (found : Option ℕ)
    → SameSlots r st
    → SameSlots r (get_at size st found).2
unfolding get_at
get_at-SameSlots size r st none h = h
get_at-SameSlots size r st (some i) h = elim (Bool-cases (size == 0)) [
  | inl e ↦ rw e h
  | inr e ↦ rw e (record { same_entries = h.same_entries; same_num = h.same_num })
]

-- An operation that does not succeed leaves the store.
abbrev OkOrSame : Store → Status × Store → Type 0
OkOrSame st r = (r.0 ≡ ok) ⊎ (r.1 ≡ st)

module _ (now : ℕ) (li : ℕ) (st : Store) where
  put_at-OkOrSame :
      (key value : CString) (found : Option ℕ) → OkOrSame st (put_at now key value li st found)
  unfolding put_at
  put_at-OkOrSame key value (some i) = inl refl
  put_at-OkOrSame key value none = elim (Bool-cases (leb max_entries st.num_entries)) [
    | inl full ↦ rw full (inr refl)
    | inr room ↦ rw room (inl refl)
  ]

  put-OkOrSame : (key value : CString) → OkOrSame st (put_store now key value li st)
  unfolding put_store
  put-OkOrSame key value = elim (Bool-cases (leb 256 (length key))) [
    | inl long ↦ rw long (inr refl)
    | inr short_key ↦ rw short_key (elim (Bool-cases (leb 1024 (length value))) [
      | inl long ↦ rw long (inr refl)
      | inr fits ↦ rw fits (put_at-OkOrSame key value (find_entry_index st key))
    ])
  ]

  delete_at-OkOrSame : (found : Option ℕ) → OkOrSame st (delete_at now li st found)
  unfolding delete_at
  delete_at-OkOrSame none = inr refl
  delete_at-OkOrSame (some i) = inl refl

  delete-OkOrSame : (key : CString) → OkOrSame st (delete_store now key li st)
  unfolding delete_store
  delete-OkOrSame key = delete_at-OkOrSame (find_entry_index st key)

persist-IsDurable :
    (now : ℕ) (st : Store) (d : Disk) (s : Status) (st' : Store)
    → OkOrSame st (s, st')
    → SameSlots (recovered d) st
    → IsDurable (persist (success now) (s, st') (record { store = some st; disk = d })).1
unfolding persist save_to_disk
persist-IsDurable now st d ok st' o h = SameSlots-refl st'
persist-IsDurable now st d fail st' (inr e) h = rw e h
persist-IsDurable now st d raised st' (inr e) h = rw e h
persist-IsDurable now st d fault st' (inr e) h = rw e h
persist-IsDurable now st d fail st' (inl e) h = cc
persist-IsDurable now st d raised st' (inl e) h = cc
persist-IsDurable now st d fault st' (inl e) h = cc

perform-IsDurable :
    (now : ℕ) (c : Call) (o : Option Store) (d : Disk)
    → IsDurable (record { store = o; disk = d })
    → IsDurable (perform now c (record { store = o; disk = d }))
unfolding perform put delete get get_store compact reset reset_store save_to_disk
perform-IsDurable now (put_call none value li) o d h = h
perform-IsDurable now (put_call (some key) none li) o d h = h
perform-IsDurable now (put_call (some key) (some value) li) none d h = h
perform-IsDurable now (put_call (some key) (some value) li) (some st) d h =
    let (s, st') = put_store now key value li st in
    persist-IsDurable now st d s st' (put-OkOrSame now li st key value) h
perform-IsDurable now (delete_call none li) o d h = h
perform-IsDurable now (delete_call (some key) li) none d h = h
perform-IsDurable now (delete_call (some key) li) (some st) d h =
    let (s, st') = delete_store now key li st in
    persist-IsDurable now st d s st' (delete-OkOrSame now li st key) h
perform-IsDurable now (get_call none size) o d h = h
perform-IsDurable now (get_call (some key) size) none d h = h
perform-IsDurable now (get_call (some key) size) (some st) d h =
    get_at-SameSlots size (recovered d) st (find_entry_index st key) h
perform-IsDurable now compact_call none d h = h
perform-IsDurable now compact_call (some st) d h = SameSlots-refl (compact_store st)
perform-IsDurable now reset_call none d h = h
perform-IsDurable now reset_call (some st) d h = record { same_entries = refl; same_num = refl }

run-IsDurable : (calls : List (ℕ × Call)) (k : Kv) → IsDurable k → IsDurable (run calls k)
unfolding run
run-IsDurable [] k h = h
run-IsDurable ((now, c) ∷ calls) k h =
    run-IsDurable calls (perform now c k) (perform-IsDurable now c k.store k.disk h)

-- A server restarted on the file that another left, with no shared memory yet.
abbrev pub restart : ℕ → Kv → Kv
restart now k = init_shared_memory (success now) none (record { store = none; disk = k.disk })

restart-recovered :
    (now : ℕ) (d : Disk) (o : Option Store)
    → (st : Store) × ((restart now (record { store = o; disk = d })).store ≡ some st)
      × SameSlots (recovered d) st
unfolding init_shared_memory load_from_disk load_image
restart-recovered now absent o = (zeroed, refl, SameSlots-refl zeroed)
restart-recovered now short o = (zeroed, refl, SameSlots-refl zeroed)
restart-recovered now (image d) o = (_, refl, record { same_entries = refl; same_num = refl })

same-view : (s t : Store) → SameSlots s t → (key : CString) → view s key ≡ view t key
same-view s t h key = rw (h.same_entries, h.same_num)

restart_finds :
    (now : ℕ) (st : Store) (d : Disk) (key : CString)
    → SameSlots (recovered d) st
    → view_of (restart now (record { store = some st; disk = d })).store key ≡ view st key
restart_finds now st d key h =
    let (st', e, same) = restart-recovered now d (some st) in
    rw e (sym (same-view (recovered d) st' same key) ∙ same-view (recovered d) st h key)

module _ (calls : List (ℕ × Call)) (k : Kv) (now : ℕ) where
  restart_after :
      (o : Option Store) (d : Disk)
      → IsDurable (record { store = o; disk = d })
      → o ≢ none
      → (key : CString)
      → view_of (restart now (record { store = o; disk = d })).store key ≡ view_of o key
  restart_after none d h some_store key = absurd (some_store refl)
  restart_after (some st) d h some_store key = restart_finds now st d key h

  -- From a server whose file holds its slots, after any calls of PUT, DELETE, GET, COMPACT and
  -- RESET of which none begins before the one ahead of it has returned, and during which the file
  -- system does what it is asked, a restart binds every key as the server did before it, if the
  -- server had a store.
  pub restart-view :
      IsDurable k
      → (run calls k).store ≢ none
      → (key : CString)
      → view_of (restart now (run calls k)).store key ≡ view_of (run calls k).store key
  restart-view h = restart_after (run calls k).store (run calls k).disk (run-IsDurable calls k h)
