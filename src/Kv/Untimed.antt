-- ===== src/Kv/Untimed.antt =====
-- The operations of src/pgraft_kv.c on stores without their timestamps.
use pgraft.Base.{
  ℕ, zero, suc, ◌+◌, ◌≡◌, ◌∙◌, refl, ap, Option, none, some, List, [], ◌∷◌, map, leb, length,
  Bool-cases, get_or, set, take, find_index, add64, CString, Status, ok, inl, inr,
}
use pgraft.Kv.Store.{
  Entry, Store, blank, max_entries, is_match, find_entry_index, updated_entry, new_entry,
  deleted_entry, count_put, put_at, put_store, delete_at, delete_store,
}

-- An entry, and a store, without the timestamps.
abbrev pub untimed_entry : Entry → Entry
untimed_entry e = record e { created_at = 0; updated_at = 0 }

abbrev pub untimed : Store → Store
untimed st = record st { entries = map untimed_entry st.entries }

set-map {ℓ} :
    {A : Type ℓ} (f : A → A) (xs : List A) (i : ℕ) (v : A)
    → set (map f xs) i (f v) ≡ map f (set xs i v)
set-map f [] i v = refl
set-map f (x ∷ xs) zero v = refl
set-map f (x ∷ xs) (suc i) v = ap (λ t. f x ∷ t) (set-map f xs i v)

get_or-map {ℓ} :
    {A : Type ℓ} (f : A → A) (xs : List A) (i : ℕ) (d : A)
    → get_or (map f xs) i (f d) ≡ f (get_or xs i d)
get_or-map f [] i d = refl
get_or-map f (x ∷ xs) zero d = refl
get_or-map f (x ∷ xs) (suc i) d = get_or-map f xs i d

find_index-untimed :
    (key : CString) (n : ℕ) (es : List Entry)
    → find_index (is_match key) (take n (map untimed_entry es))
      ≡ find_index (is_match key) (take n es)
unfolding find_index is_match
find_index-untimed key zero es = refl
find_index-untimed key (suc n) [] = refl
find_index-untimed key (suc n) (e ∷ es) = rw (find_index-untimed key n es)

find_entry_index-untimed :
    (st : Store) (key : CString) → find_entry_index (untimed st) key ≡ find_entry_index st key
unfolding find_entry_index
find_entry_index-untimed st key = find_index-untimed key st.num_entries st.entries

-- A result without the timestamps.
abbrev pub untimed_result : Status × Store → Status × Store
untimed_result r = (r.0, untimed r.1)

module _ (now : ℕ) (li : ℕ) (st : Store) where
  -- Rewriting entry `i` by a function that agrees with its timeless version.
  set-untimed :
      (f g : Entry → Entry)
      → ((e : Entry) → f (untimed_entry e) ≡ untimed_entry (g e))
      → (i : ℕ)
      → set (map untimed_entry st.entries) i (f (get_or (map untimed_entry st.entries) i blank))
        ≡ map untimed_entry (set st.entries i (g (get_or st.entries i blank)))
  set-untimed f g same i =
      ap (λ e. set (map untimed_entry st.entries) i (f e))
        (get_or-map untimed_entry st.entries i blank)
      ∙ ap (λ e. set (map untimed_entry st.entries) i e) (same (get_or st.entries i blank))
      ∙ set-map untimed_entry st.entries i (g (get_or st.entries i blank))

  put_at-untimed :
      (key value : CString) (found : Option ℕ)
      → put_at 0 key value li (untimed st) found ≡ untimed_result (put_at now key value li st found)
  unfolding put_at
  put_at-untimed key value (some i) =
      ap (λ es. (ok, count_put li (record st { entries = es })))
        (set-untimed (updated_entry 0 value li) (updated_entry now value li) (λ e. refl) i)
  put_at-untimed key value none = elim (Bool-cases (leb max_entries st.num_entries)) [
    | inl full ↦ rw full
    | inr room ↦ rw room (
        ap (λ es. (ok, count_put li (record st { entries = es; num_entries = st.num_entries + 1 })))
          (set-map untimed_entry st.entries st.num_entries (new_entry now key value li)))
  ]

  pub put-untimed :
      (key value : CString)
      → put_store 0 key value li (untimed st) ≡ untimed_result (put_store now key value li st)
  unfolding put_store
  put-untimed key value = elim (Bool-cases (leb 256 (length key))) [
    | inl long ↦ rw long
    | inr short ↦ rw short (elim (Bool-cases (leb 1024 (length value))) [
      | inl long ↦ rw long
      | inr fits ↦
          rw (fits, find_entry_index-untimed st key)
            (put_at-untimed key value (find_entry_index st key))
    ])
  ]

  delete_at-untimed :
      (found : Option ℕ)
      → delete_at 0 li (untimed st) found ≡ untimed_result (delete_at now li st found)
  unfolding delete_at
  delete_at-untimed none = refl
  delete_at-untimed (some i) =
      ap
        (λ es. (
          ok,
          record st {
            entries = es;
            deletes = add64 st.deletes 1;
            total_operations = add64 st.total_operations 1;
            last_applied_index = li;
          },
        ))
        (set-untimed (deleted_entry 0 li) (deleted_entry now li) (λ e. refl) i)

  pub delete-untimed :
      (key : CString)
      → delete_store 0 key li (untimed st) ≡ untimed_result (delete_store now key li st)
  unfolding delete_store
  delete-untimed key =
      rw (find_entry_index-untimed st key) (delete_at-untimed (find_entry_index st key))
