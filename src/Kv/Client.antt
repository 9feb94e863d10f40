-- ===== src/Kv/Client.antt =====
-- What a client of src/pgraft_kv.c reads back: the calls in pairs, through null checks, the lock
-- and the save to disk.
use pgraft.Base.{
  ℕ, ◌<◌, ◌≡◌, ◌∙◌, refl, sym, ap, Option, none, some, length, if◌then◌else◌, take-all,
  text_eq_self, CString, Status, ok, fail, raised, fault, arith,
}
use pgraft.Kv.Store.{Store, put_store, get_store, delete_store}
use pgraft.Kv.View.{view, is_unbound, next_version, IsValid}
use pgraft.Kv.Put.{put-status, put-view}
use pgraft.Kv.Delete.{delete-view, delete-IsValid}
use pgraft.Kv.Get.{found_value, get-view}
use pgraft.Kv.Service.{Io, Disk, Kv, persist, put, delete, get}
use pgraft.Kv.Replica.{store-save}

-- A server whose store is `st`.
abbrev pub server : Store → Disk → Kv
server st d = record { store = some st; disk = d }

pub persist-result :
    (io : Io) (r : Status × Store) (k : Kv)
    → ((persist io r k).0 ≡ r.0) × ((persist io r k).1.store ≡ some r.1)
unfolding persist
persist-result io (ok, st) k = (refl, store-save io (some st) k.disk)
persist-result io (fail, st) k = (refl, refl)
persist-result io (raised, st) k = (refl, refl)
persist-result io (fault, st) k = (refl, refl)

-- What a GET reports, from the call and from the store alone.
abbrev pub Answer : Type 0
Answer = Status × Option (CString × ℕ)

abbrev pub answer {ℓ} : {S : Type ℓ} → Status × Option (CString × ℕ) × S → Answer
answer r = (r.0, r.1)

abbrev reads : CString → ℕ → Option Store → Answer
reads key size none = (raised, none)
reads key size (some st) = answer (get_store key size st)

get-reads :
    (key : CString) (size : ℕ) (o : Option Store) (d : Disk)
    → answer (get (some key) size (record { store = o; disk = d })) ≡ reads key size o
unfolding get
get-reads key size none d = refl
get-reads key size (some st) d = refl

get-after :
    (io : Io) (r : Status × Store) (k : Kv) (key : CString) (size : ℕ)
    → answer (get (some key) size (persist io r k).1) ≡ answer (get_store key size r.1)
get-after io r k key size =
    get-reads key size (persist io r k).1.store (persist io r k).1.disk
    ∙ ap (reads key size) (persist-result io r k).1

-- The buffer that the SQL functions pass to GET.
abbrev pub buffer_size : ℕ
buffer_size = 1024

-- What GET answers to a client with such a buffer.
abbrev pub read_of : Option (CString × ℕ) → Answer
read_of none = (fail, none)
read_of (some b) = (ok, some b)

get_store-none :
    (st : Store) (key : CString)
    → view st key ≡ none
    → answer (get_store key buffer_size st) ≡ (fail, none)
get_store-none st key h =
    let ((s, out), _, _) = get-view key buffer_size st (omega arith) in
    cc (s, out, ap (λ o. if is_unbound o then fail else ok) h, ap (found_value buffer_size) h)

get_store-some :
    (st : Store) (key value : CString) (n : ℕ)
    → length value < 1024
    → view st key ≡ some (value, n)
    → answer (get_store key buffer_size st) ≡ (ok, some (value, n))
get_store-some st key value n short h =
    let ((s, out), _, _) = get-view key buffer_size st (omega arith) in
    cc (
      s,
      out,
      ap (λ o. if is_unbound o then fail else ok) h,
      ap (found_value buffer_size) h,
      take-all 1023 value (omega arith),
    )

module _ (io : Io) (key value : CString) (li : ℕ) (st : Store) (d : Disk) where
  short_value : (put_store io.now key value li st).0 ≡ ok → length value < 1024
  short_value accepted = let (s, _) = put-status io.now key value li st in ground (arith, s)

  pub put-result :
      (put io (some key) (some value) li (server st d)).0 ≡ (put_store io.now key value li st).0
  unfolding put
  put-result = (persist-result io (put_store io.now key value li st) (server st d)).0

  module _ (v : IsValid st)
      (accepted : (put io (some key) (some value) li (server st d)).0 ≡ ok) where
    stored_ok : (put_store io.now key value li st).0 ≡ ok
    stored_ok = sym put-result ∙ accepted

    -- A GET of the key after a PUT that succeeds answers with the value that was put, at version
    -- 1 or one more than the key had.
    pub get-put :
        answer (get (some key) buffer_size (put io (some key) (some value) li (server st d)).1)
        ≡ (ok, some (value, next_version (view st key)))
    unfolding put
    get-put =
        get-after io (put_store io.now key value li st) (server st d) key buffer_size
        ∙ get_store-some (put_store io.now key value li st).1 key value _ (short_value stored_ok)
            (put-view io.now key value li st v stored_ok key ∙ rw (text_eq_self key))

module _ (io : Io) (key : CString) (li : ℕ) (st : Store) (d : Disk) (v : IsValid st) where
  -- After a DELETE, whether or not the key was bound, a GET of it reports failure, and a DELETE
  -- again does too.
  pub get-delete :
      (answer (get (some key) buffer_size (delete io (some key) li (server st d)).1) ≡ (fail, none))
      × ((delete_store io.now key li (delete_store io.now key li st).1).0 ≡ fail)
  unfolding delete
  get-delete = (
    get-after io (delete_store io.now key li st) (server st d) key buffer_size
        ∙ get_store-none (delete_store io.now key li st).1 key gone,
    (delete-view io.now key li (delete_store io.now key li st).1 again).0 ∙ rw gone,
  )
    where
      gone : view (delete_store io.now key li st).1 key ≡ none
      gone = (delete-view io.now key li st v).1 key ∙ rw (text_eq_self key)

      again : IsValid (delete_store io.now key li st).1
      again = delete-IsValid io.now key li st v
