-- ===== src/Kv/Run.antt =====
-- Every history of calls of src/pgraft_kv.c: what holds of the store and of the file throughout.
use mathlib.Core.Path.{subst}
use pgraft.Base.{
  ℕ, ◌≡◌, refl, Option, none, some, length-replicate, count, if_holds, replicate, CString, Status,
  ok, fail, raised, fault, arith,
}
use pgraft.Kv.Store.{Store, blank, zeroed, max_entries, put_store, get_store, delete_store}
use pgraft.Kv.Maintain.{compact_store, reset_store, load_image}
use pgraft.Kv.View.{IsValid}
use pgraft.Kv.Put.{put-IsValid}
use pgraft.Kv.Delete.{delete-IsValid}
use pgraft.Kv.Get.{get-IsValid}
use pgraft.Kv.Counters.{
  IsCounted, put-IsCounted, delete-IsCounted, get-IsCounted, compact-IsCounted,
}
use pgraft.Kv.Compact.{compact-view}
use pgraft.Kv.Service.{
  Io, Disk, absent, short, image, Kv, save_to_disk, load_from_disk, init_shared_memory, persist,
  put, delete, get, compact, reset, locked, unlink_file,
}

pub record IsSound (st : Store) : Type 0 where
  pub valid : IsValid st
  pub counted : IsCounted st

abbrev pub StoreHolds : Option Store → Type 0
StoreHolds none = Unit
StoreHolds (some st) = IsSound st

abbrev pub DiskHolds : Disk → Type 0
DiskHolds absent = Unit
DiskHolds short = Unit
DiskHolds (image st) = IsSound st

abbrev pub KvHolds : Kv → Type 0
KvHolds k = StoreHolds k.store × DiskHolds k.disk

-- What one process does to the store between taking the lock and releasing it.
pub data Section (st : Store) : Store → Type 0 where
  put_section :
      (now : ℕ) (key value : CString) (log_index : ℕ)
      → Section st (put_store now key value log_index st).1
  delete_section :
      (now : ℕ) (key : CString) (log_index : ℕ) → Section st (delete_store now key log_index st).1
  get_section : (key : CString) (value_size : ℕ) → Section st (get_store key value_size st).2
  compact_section : Section st (compact_store st)
  reset_section : Section st (reset_store st)

-- One call by any backend that no other parts, or one section of it: what it does under the lock,
-- the save behind that, or the removal of the file.
pub data Step (k : Kv) : Kv → Type 0 where
  starts : (io : Io) → Step k (init_shared_memory io none k)
  puts :
      (io : Io) (key value : Option CString) (log_index : ℕ)
      → Step k (put io key value log_index k).1
  deletes : (io : Io) (key : Option CString) (log_index : ℕ) → Step k (delete io key log_index k).1
  gets : (key : Option CString) (value_size : ℕ) → Step k (get key value_size k).2
  saves : (io : Io) → Step k (save_to_disk io k).1
  loads : (io : Io) → Step k (load_from_disk io k).1
  compacts : (io : Io) → Step k (compact io k)
  resets : (io : Io) → Step k (reset io k)
  locks : {st st' : Store} → k.store ≡ some st → Section st st' → Step k (locked st' k)
  unlinks_file : (io : Io) → Step k (unlink_file io k)

pub data Reach (k : Kv) : Kv → Type 0 where
  here : Reach k k
  next : {l m : Kv} → Reach k l → Step l m → Reach k m

zeroed_like-IsSound :
    (st : Store)
    → st.entries ≡ replicate max_entries blank
    → st.num_entries ≡ 0
    → IsCounted st
    → IsSound st
unfolding count
zeroed_like-IsSound st e n c = record {
  valid = record {
    sized = rw e (length-replicate max_entries blank);
    bounded = omega arith;
    unique = λ key. rw n (omega arith);
  };
  counted = c;
}

pub zeroed-IsSound : IsSound zeroed
zeroed-IsSound = zeroed_like-IsSound zeroed refl refl refl

save-holds :
    (io : Io) (o : Option Store) (d : Disk)
    → StoreHolds o
    → DiskHolds d
    → KvHolds (save_to_disk io (record { store = o; disk = d })).1
unfolding save_to_disk
save-holds io none d s f = (s, f)
save-holds io (some st) d s f =
    if_holds (λ (r : Status × Kv). KvHolds r.1) io.opens
      (if_holds (λ (r : Status × Kv). KvHolds r.1) io.transfers (s, s) (s, tt)) (s, f)

load_image-IsSound : (saved st : Store) → IsSound saved → IsSound (load_image saved st)
unfolding load_image
load_image-IsSound saved st h = h

load-holds :
    (io : Io) (o : Option Store) (d : Disk)
    → StoreHolds o
    → DiskHolds d
    → KvHolds (load_from_disk io (record { store = o; disk = d })).1
unfolding load_from_disk
load-holds io none d s f = (s, f)
load-holds io (some st) absent s f = (s, f)
load-holds io (some st) short s f = (s, f)
load-holds io (some st) (image saved) s f = (
  if_holds (λ (r : Status × Store). IsSound r.1) io.opens
      (if_holds (λ (r : Status × Store). IsSound r.1) io.transfers (load_image-IsSound saved st f)
        s)
      s,
  f,
)

init-holds : (io : Io) (k : Kv) → KvHolds k → KvHolds (init_shared_memory io none k)
unfolding init_shared_memory
init-holds io k h = load-holds io (some zeroed) k.disk zeroed-IsSound h.1

persist-holds :
    (io : Io) (s : Status) (st : Store) (k : Kv)
    → IsSound st
    → KvHolds k
    → KvHolds (persist io (s, st) k).1
unfolding persist
persist-holds io ok st k s h = save-holds io (some st) k.disk s h.1
persist-holds io fail st k s h = (s, h.1)
persist-holds io raised st k s h = (s, h.1)
persist-holds io fault st k s h = (s, h.1)

put_store-IsSound :
    (now : ℕ) (key value : CString) (li : ℕ) (st : Store)
    → IsSound st
    → IsSound (put_store now key value li st).1
put_store-IsSound now key value li st s = record {
  valid = put-IsValid now key value li st s.valid;
  counted = put-IsCounted st s.counted now key value li;
}

delete_store-IsSound :
    (now : ℕ) (key : CString) (li : ℕ) (st : Store)
    → IsSound st
    → IsSound (delete_store now key li st).1
delete_store-IsSound now key li st s = record {
  valid = delete-IsValid now key li st s.valid;
  counted = delete-IsCounted st s.counted now key li;
}

get_store-IsSound :
    (key : CString) (size : ℕ) (st : Store) → IsSound st → IsSound (get_store key size st).2
get_store-IsSound key size st s = record {
  valid = get-IsValid key size st s.valid;
  counted = get-IsCounted st s.counted key size;
}

compact_store-IsSound : (st : Store) → IsSound st → IsSound (compact_store st)
compact_store-IsSound st s = record {
  valid = (compact-view st s.valid).1;
  counted = compact-IsCounted st s.counted;
}

put-holds :
    (io : Io) (key value : Option CString) (li : ℕ) (o : Option Store) (d : Disk)
    → StoreHolds o
    → DiskHolds d
    → KvHolds (put io key value li (record { store = o; disk = d })).1
unfolding put
put-holds io none value li o d s f = (s, f)
put-holds io (some key) none li o d s f = (s, f)
put-holds io (some key) (some value) li none d s f = (s, f)
put-holds io (some key) (some value) li (some st) d s f =
    let (r, st') = put_store io.now key value li st in
    persist-holds io r st' _ (put_store-IsSound io.now key value li st s) (s, f)

delete-holds :
    (io : Io) (key : Option CString) (li : ℕ) (o : Option Store) (d : Disk)
    → StoreHolds o
    → DiskHolds d
    → KvHolds (delete io key li (record { store = o; disk = d })).1
unfolding delete
delete-holds io none li o d s f = (s, f)
delete-holds io (some key) li none d s f = (s, f)
delete-holds io (some key) li (some st) d s f =
    let (r, st') = delete_store io.now key li st in
    persist-holds io r st' _ (delete_store-IsSound io.now key li st s) (s, f)

get-holds :
    (key : Option CString) (size : ℕ) (o : Option Store) (d : Disk)
    → StoreHolds o
    → DiskHolds d
    → KvHolds (get key size (record { store = o; disk = d })).2
unfolding get
get-holds none size o d s f = (s, f)
get-holds (some key) size none d s f = (s, f)
get-holds (some key) size (some st) d s f = (get_store-IsSound key size st s, f)

compact-holds :
    (io : Io) (o : Option Store) (d : Disk)
    → StoreHolds o
    → DiskHolds d
    → KvHolds (compact io (record { store = o; disk = d }))
unfolding compact
compact-holds io none d s f = (s, f)
compact-holds io (some st) d s f =
    save-holds io (some (compact_store st)) d (compact_store-IsSound st s) f

pub reset-IsSound : (st : Store) → IsSound (reset_store st)
unfolding reset_store
reset-IsSound st = zeroed_like-IsSound _ refl refl refl

reset-holds :
    (io : Io) (o : Option Store) (d : Disk)
    → StoreHolds o
    → DiskHolds d
    → KvHolds (reset io (record { store = o; disk = d }))
unfolding reset
reset-holds io none d s f = (s, f)
reset-holds io (some st) d s f = (reset-IsSound st, if_holds DiskHolds io.unlinks tt f)

Section-IsSound : {st st' : Store} → Section st st' → IsSound st → IsSound st'
Section-IsSound {st} (put_section now key value li) s = put_store-IsSound now key value li st s
Section-IsSound {st} (delete_section now key li) s = delete_store-IsSound now key li st s
Section-IsSound {st} (get_section key size) s = get_store-IsSound key size st s
Section-IsSound {st} compact_section s = compact_store-IsSound st s
Section-IsSound {st} reset_section s = reset-IsSound st

Step-holds : {k l : Kv} → Step k l → KvHolds k → KvHolds l
Step-holds {k} (starts io) h = init-holds io k h
Step-holds {k} (puts io key value li) h = put-holds io key value li k.store k.disk h.0 h.1
Step-holds {k} (deletes io key li) h = delete-holds io key li k.store k.disk h.0 h.1
Step-holds {k} (gets key size) h = get-holds key size k.store k.disk h.0 h.1
Step-holds {k} (saves io) h = save-holds io k.store k.disk h.0 h.1
Step-holds {k} (loads io) h = load-holds io k.store k.disk h.0 h.1
Step-holds {k} (compacts io) h = compact-holds io k.store k.disk h.0 h.1
Step-holds {k} (resets io) h = reset-holds io k.store k.disk h.0 h.1
Step-holds {k} (locks e section) h =
    (Section-IsSound section (subst (λ o. StoreHolds o) e h.0), h.1)
Step-holds {k} (unlinks_file io) h = (h.0, if_holds DiskHolds io.unlinks tt h.1)

-- Whatever calls are made, in whatever order, with their sections under the lock, their saves and
-- the removal of the file interleaved in any way, and however the file system answers, from a state
-- whose store and file are sound, the store and the file stay sound: 1000 slots of which no more
-- than 1000 are in use, at most one live entry for each key, and statistics that add up.
pub Reach-holds : {k l : Kv} → KvHolds k → Reach k l → KvHolds l
Reach-holds h here = h
Reach-holds h (next r st) = Step-holds st (Reach-holds h r)
