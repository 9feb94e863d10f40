-- ===== src/Kv/Create.antt =====
-- `pgraft_kv_put` of src/pgraft_kv.c where the key has no entry.
use pgraft.Base.{
  ℕ, ◌+◌, ◌<◌, ◌≡◌, ◌∙◌, inl, inr, true, none, some, ◌∷◌, [], ◌++◌, length, length-set,
  if◌then◌else◌, Bool-cases, set, take-set_end, take-all, find, find-append, count, count-append,
  count_of_find-none, find_of_count_zero, first_of_two-none, find_index-none, CString, text_eq,
  text_eq_iff, text_eq_self, ok, arith,
}
use pgraft.Kv.Store.{
  Entry, Store, max_entries, slots, is_match, find_entry_index, new_entry, count_put, put_at,
}
use pgraft.Kv.View.{view, IsValid, next_version}

new-is_match :
    (now : ℕ) (value : CString) (li : ℕ) (key j : CString)
    → length key < 256
    → is_match j (new_entry now key value li) ≡ text_eq key j
unfolding is_match
new-is_match now value li key j h = rw (take-all 255 key (omega arith))

-- The branch that creates an entry in the next slot.
module _ (now : ℕ) (key value : CString) (li : ℕ) (st : Store) (v : IsValid st)
    (missing : find_entry_index st key ≡ none) (room : st.num_entries < max_entries)
    (fits : length key < 256) where
  abbrev pub fresh : Entry
  fresh = new_entry now key value li

  abbrev pub created : Store
  created = count_put li (record st {
    entries = set st.entries st.num_entries fresh;
    num_entries = st.num_entries + 1;
  })

  pub create-eq : put_at now key value li st none ≡ (ok, created)
  unfolding put_at
  create-eq = ground arith

  create_slots : slots created ≡ slots st ++ (fresh ∷ [])
  create_slots = take-set_end st.num_entries st.entries fresh (omega (arith, v.sized))

  fresh-holds : (j : CString) → is_match j fresh ≡ text_eq key j
  fresh-holds j = new-is_match now value li key j fits

  none_yet : (k : CString) → text_eq key k ≡ true → count (is_match k) (slots st) ≡ 0
  unfolding find_entry_index
  none_yet k same = rw (← (text_eq_iff key k).0 same) (
      count_of_find-none (is_match key) (slots st)
        (find_index-none (is_match key) (slots st) missing))

  unbound_yet : (k : CString) → text_eq key k ≡ true → find (is_match k) (slots st) ≡ none
  unbound_yet k same = find_of_count_zero (is_match k) (slots st) (none_yet k same)

  pub create-view :
      length value < 1024
      → (j : CString)
      → view created j
        ≡ (if text_eq key j then some (value, next_version (view st key)) else view st j)
  unfolding find
  create-view short j =
      rw (create_slots, find-append (is_match j) (slots st) (fresh ∷ []), fresh-holds j)
        (elim (Bool-cases (text_eq key j)) [
          | inl same ↦
              rw (same, unbound_yet j same, unbound_yet key (text_eq_self key))
                (rw (take-all 1023 value (omega arith)))
          | inr ne ↦ rw (ne, first_of_two-none)
        ])

  pub create-IsValid : IsValid created
  unfolding count
  create-IsValid = record {
    sized = length-set st.entries st.num_entries fresh ∙ v.sized;
    bounded = omega (arith, room);
    unique = λ k.
        rw (create_slots, count-append (is_match k) (slots st) (fresh ∷ []), fresh-holds k)
          (elim (Bool-cases (text_eq key k)) [
            | inl same ↦ rw same (omega (arith, none_yet k same))
            | inr ne ↦ rw ne (omega (arith, v.unique k))
          ]);
  }
