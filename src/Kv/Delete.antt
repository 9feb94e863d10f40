-- ===== src/Kv/Delete.antt =====
-- `pgraft_kv_delete` of src/pgraft_kv.c against the map of bindings.
use pgraft.Base.{
  ℕ, ◌+◌, ◌≡◌, ◌∙◌, refl, ap, inl, inr, false, none, some, length-set, if◌then◌else◌, Bool-cases,
  Option-cases, get_or, set, take-set_lt, find-set_other, count, count-set, find_of_count_zero, bit,
  CString, text_eq, text_eq_iff, ok, fail, arith,
}
use pgraft.Kv.Store.{
  Entry, Store, blank, slots, is_match, find_entry_index, deleted_entry, delete_at, delete_store,
}
use pgraft.Kv.View.{binding, view, IsValid, is_unbound, is_match_ne}
use pgraft.Kv.Find.{
  find_entry_index-none, found-lt, found-lt_num, found-slot, found-is_match, found-view,
}

deleted-is_match :
    (now li : ℕ) (k : CString) (e : Entry) → is_match k (deleted_entry now li e) ≡ false
unfolding is_match
deleted-is_match now li k e = ground arith

module _ (now : ℕ) (key : CString) (li : ℕ) (st : Store) (v : IsValid st) (i : ℕ)
    (found : find_entry_index st key ≡ some i) where
  abbrev old : Entry
  old = get_or st.entries i blank

  abbrev gone : Entry
  gone = deleted_entry now li old

  abbrev removed : Store
  removed = (delete_at now li st (some i)).1

  removed_slots : slots removed ≡ set (slots st) i gone
  unfolding delete_at
  removed_slots = take-set_lt st.num_entries st.entries i gone (found-lt_num st key i found)

  removed-count :
      (k : CString)
      → count (is_match k) (slots removed) + bit (is_match k old) ≡ count (is_match k) (slots st)
  removed-count k = rw removed_slots (
      omega (
        arith,
        count-set (is_match k) (slots st) i gone blank (found-lt st key i found),
        ap (λ e. bit (is_match k e)) (found-slot st key i found),
        ap bit (deleted-is_match now li k old),
      ))

  removed-view_self : view removed key ≡ none
  removed-view_self = ap binding (
      find_of_count_zero (is_match key) (slots removed)
        (omega (arith, removed-count key, v.unique key, ap bit (found-is_match st key i found))))

  removed-view_other : (j : CString) → text_eq key j ≡ false → view removed j ≡ view st j
  removed-view_other j ne = rw removed_slots (
      ap binding (
        find-set_other (is_match j) (slots st) i gone blank (found-lt st key i found)
          (rw (found-slot st key i found)
            (is_match_ne key j old (found-is_match st key i found) ne))
          (deleted-is_match now li j old)))

  removed-view : (j : CString) → view removed j ≡ (if text_eq key j then none else view st j)
  removed-view j = elim (Bool-cases (text_eq key j)) [
    | inl same ↦ rw (same, ← (text_eq_iff key j).0 same) removed-view_self
    | inr ne ↦ rw ne (removed-view_other j ne)
  ]

  removed-IsValid : IsValid removed
  unfolding delete_at
  removed-IsValid = record {
    sized = length-set st.entries i gone ∙ v.sized;
    bounded = v.bounded;
    unique = λ k. omega (arith, removed-count k, v.unique k);
  }

unbound_already :
    (st : Store) (key j : CString)
    → view st key ≡ none
    → view st j ≡ (if text_eq key j then none else view st j)
unbound_already st key j h = elim (Bool-cases (text_eq key j)) [
  | inl same ↦ rw (same, ← (text_eq_iff key j).0 same) h
  | inr ne ↦ rw ne
]

module _ (now : ℕ) (key : CString) (li : ℕ) (st : Store) where
  -- DELETE succeeds exactly when the key is bound; then the key is unbound and every other key
  -- keeps its binding. Otherwise it reports failure and the store is as before.
  pub delete-view :
      IsValid st
      → ((delete_store now key li st).0 ≡ (if is_unbound (view st key) then fail else ok))
        × ((j : CString)
            → view (delete_store now key li st).1 j ≡ (if text_eq key j then none else view st j))
        × (view st key ≡ none → (delete_store now key li st).1 ≡ st)
  unfolding delete_store delete_at
  delete-view v = elim (Option-cases (find_entry_index st key)) [
    | inl e ↦ rw e (absent (find_entry_index-none st key e))
    | inr (i, e) ↦
        rw (e, found-view st key i e) (found_ok i, removed-view now key li st v i e, λ h. cc)
  ]
    where
      found_ok : (i : ℕ) → (delete_at now li st (some i)).0 ≡ ok
      found_ok i = refl

      absent :
          view st key ≡ none
          → ((delete_at now li st none).0 ≡ (if is_unbound (view st key) then fail else ok))
            × ((j : CString)
                → view (delete_at now li st none).1 j ≡ (if text_eq key j then none else view st j))
            × (view st key ≡ none → (delete_at now li st none).1 ≡ st)
      absent h = (rw h, λ j. unbound_already st key j h, λ _. refl)

  pub delete-IsValid : IsValid st → IsValid (delete_store now key li st).1
  unfolding delete_store delete_at
  delete-IsValid v = elim (Option-cases (find_entry_index st key)) [
    | inl e ↦ rw e v
    | inr (i, e) ↦ rw e (removed-IsValid now key li st v i e)
  ]
