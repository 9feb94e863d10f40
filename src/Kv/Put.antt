-- ===== src/Kv/Put.antt =====
-- `pgraft_kv_put` of src/pgraft_kv.c against the map of bindings.
use pgraft.Base.{
  ℕ, ◌<◌, ◌≤◌, ◌≡◌, refl, inl, inr, Bool, true, false, not, ◌||◌, ◌&&◌, ltb, none, some, length,
  leb, if◌then◌else◌, Bool-cases, Option-cases, leb→le, CString, text_eq, Status, ok, raised, arith,
  lt→ltb, lt→leb_false,
}
use pgraft.Kv.Store.{Store, max_entries, find_entry_index, put_at, put_store}
use pgraft.Kv.View.{view, IsValid, next_version, is_unbound}
use pgraft.Kv.Find.{find_entry_index-none, found-view}
use pgraft.Kv.Update.{update-view, update-IsValid}
use pgraft.Kv.Create.{create-eq, create-view, create-IsValid}

-- The ways that `put_store` goes.
data PutCase (now : ℕ) (key value : CString) (li : ℕ) (st : Store) : Status × Store → Type 0 where
  long_key : 256 ≤ length key → PutCase now key value li st (raised, st)
  long_value : 1024 ≤ length value → PutCase now key value li st (raised, st)
  full :
      find_entry_index st key ≡ none
      → max_entries ≤ st.num_entries
      → PutCase now key value li st (raised, st)
  updates :
      (i : ℕ)
      → find_entry_index st key ≡ some i
      → length key < 256
      → length value < 1024
      → PutCase now key value li st (put_at now key value li st (some i))
  creates :
      find_entry_index st key ≡ none
      → st.num_entries < max_entries
      → length key < 256
      → length value < 1024
      → PutCase now key value li st (put_at now key value li st none)

module _ (now : ℕ) (key value : CString) (li : ℕ) (st : Store) where
  put_at-full :
      leb max_entries st.num_entries ≡ true → put_at now key value li st none ≡ (raised, st)
  unfolding put_at
  put_at-full h = rw h

  put_at-room : st.num_entries < max_entries → (put_at now key value li st none).0 ≡ ok
  unfolding put_at
  put_at-room room = rw (lt→leb_false _ _ room)

  put_at_cases :
      length key < 256
      → length value < 1024
      → PutCase now key value li st (put_at now key value li st (find_entry_index st key))
  put_at_cases short fits = elim (Option-cases (find_entry_index st key)) [
    | inr (i, e) ↦ rw e (updates i e short fits)
    | inl e ↦ rw e (elim (Bool-cases (leb max_entries st.num_entries)) [
      | inr room ↦ creates e (ground arith) short fits
      | inl none_left ↦ rw (put_at-full none_left) (full e (ground arith))
    ])
  ]

  put_cases : PutCase now key value li st (put_store now key value li st)
  unfolding put_store
  put_cases = elim (Bool-cases (leb 256 (length key))) [
    | inl long ↦ rw long (long_key (leb→le _ _ long))
    | inr short ↦ rw short (elim (Bool-cases (leb 1024 (length value))) [
      | inl long ↦ rw long (long_value (leb→le _ _ long))
      | inr fits ↦ rw fits (put_at_cases (ground arith) (ground arith))
    ])
  ]

module _ {now : ℕ} {key value : CString} {li : ℕ} {st : Store} (v : IsValid st) where
  case-IsValid : {r : Status × Store} → PutCase now key value li st r → IsValid r.1
  case-IsValid (long_key h) = v
  case-IsValid (long_value h) = v
  case-IsValid (full h f) = v
  case-IsValid (updates i found short fits) = update-IsValid now key value li st i found v
  case-IsValid (creates missing room short fits) =
      rw (create-eq now key value li st v missing room short)
        (create-IsValid now key value li st v missing room short)

  case-view :
      {r : Status × Store}
      → PutCase now key value li st r
      → r.0 ≡ ok
      → (j : CString)
      → view r.1 j ≡ (if text_eq key j then some (value, next_version (view st key)) else view st j)
  case-view (long_key h) e = cc
  case-view (long_value h) e = cc
  case-view (full h f) e = cc
  case-view (updates i found short fits) e = update-view now key value li st i found fits
  case-view (creates missing room short fits) e =
      rw (create-eq now key value li st v missing room short)
        (create-view now key value li st v missing room short fits)

-- `put_store` as the source documents it: it succeeds exactly when the texts fit and the key is
-- bound or a slot is left.
abbrev pub put_accepts : CString → CString → Store → Bool
put_accepts key value st =
    ltb (length key) 256
    && ltb (length value) 1024
    && (not (is_unbound (view st key)) || ltb st.num_entries max_entries)

module _ {now : ℕ} {key value : CString} {li : ℕ} {st : Store} where
  case-status :
      {r : Status × Store}
      → PutCase now key value li st r
      → (r.0 ≡ (if put_accepts key value st then ok else raised))
        × (put_accepts key value st ≡ false → r.1 ≡ st)
  case-status (long_key h) = ground arith
  case-status (long_value h) = ground arith
  case-status (full missing f) = rw (find_entry_index-none st key missing) (ground arith)
  case-status (updates i found short fits) =
      unfold put_at in
      rw (found-view st key i found, lt→ltb _ _ short, lt→ltb _ _ fits) (refl, λ h. cc)
  case-status (creates missing room short fits) =
      rw (find_entry_index-none st key missing, lt→ltb _ _ short, lt→ltb _ _ fits, lt→ltb _ _ room)
        (put_at-room now key value li st room, λ h. cc)

module _ (now : ℕ) (key value : CString) (li : ℕ) (st : Store) where
  -- PUT succeeds exactly when the key and the value fit and either the key is bound or fewer than
  -- 1000 slots are in use. Otherwise it raises an error and the store is as before.
  pub put-status :
      ((put_store now key value li st).0 ≡ (if put_accepts key value st then ok else raised))
      × (put_accepts key value st ≡ false → (put_store now key value li st).1 ≡ st)
  put-status = case-status (put_cases now key value li st)

  -- After a PUT that succeeds on a valid store, the key is bound to the whole value, at version 1
  -- where it was unbound and at the next version where it was bound, and no other binding changes.
  pub put-view :
      IsValid st
      → (put_store now key value li st).0 ≡ ok
      → (j : CString)
      → view (put_store now key value li st).1 j
        ≡ (if text_eq key j then some (value, next_version (view st key)) else view st j)
  put-view v = case-view v (put_cases now key value li st)

  pub put-IsValid : IsValid st → IsValid (put_store now key value li st).1
  put-IsValid v = case-IsValid v (put_cases now key value li st)
