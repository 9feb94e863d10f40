-- ===== src/Kv/Update.antt =====
-- `pgraft_kv_put` of src/pgraft_kv.c where the key has an entry.
use pgraft.Base.{
  ℕ, ◌<◌, ◌≡◌, ◌∙◌, ap, inl, inr, true, false, some, length, length-set, if◌then◌else◌, Bool-cases,
  get_or, set, take-set_lt, take-all, find-set_found, find-set_other, count, count-set, bit,
  CString, text_eq, text_eq_iff, arith,
}
use pgraft.Kv.Store.{Entry, Store, blank, slots, is_match, find_entry_index, updated_entry, put_at}
use pgraft.Kv.View.{binding, view, IsValid, next_version, is_match_ne}
use pgraft.Kv.Find.{found-lt, found-lt_num, found-slot, found-is_match, found-view}

pub updated-is_match :
    (now : ℕ) (value : CString) (li : ℕ) (key : CString) (e : Entry)
    → is_match key e ≡ true
    → (k : CString) → is_match k (updated_entry now value li e) ≡ is_match k e
unfolding is_match
updated-is_match now value li key e h k = ground arith

-- The branch that updates an entry.
module _ (now : ℕ) (key value : CString) (li : ℕ) (st : Store) (i : ℕ)
    (found : find_entry_index st key ≡ some i) where
  abbrev pub old : Entry
  old = get_or st.entries i blank

  abbrev pub new : Entry
  new = updated_entry now value li old

  abbrev pub updated : Store
  updated = (put_at now key value li st (some i)).1

  update_slots : slots updated ≡ set (slots st) i new
  unfolding put_at
  update_slots = take-set_lt st.num_entries st.entries i new (found-lt_num st key i found)

  new-holds : is_match key new ≡ true
  new-holds = updated-is_match now value li key old holds key ∙ holds
    where
      holds : is_match key old ≡ true
      holds = found-is_match st key i found

  update-view_self :
      length value < 1024 → view updated key ≡ some (value, next_version (view st key))
  unfolding find_entry_index
  update-view_self short =
      rw (update_slots, found-view st key i found)
        (ap binding (find-set_found (is_match key) (slots st) i new found new-holds)
          ∙ rw (take-all 1023 value (omega arith)))

  update-view_other : (j : CString) → text_eq key j ≡ false → view updated j ≡ view st j
  update-view_other j ne = rw update_slots (
      ap binding (
        find-set_other (is_match j) (slots st) i new blank (found-lt st key i found)
          (rw (found-slot st key i found)
            (is_match_ne key j old (found-is_match st key i found) ne))
          (is_match_ne key j new new-holds ne)))

  pub update-view :
      length value < 1024
      → (j : CString)
      → view updated j
        ≡ (if text_eq key j then some (value, next_version (view st key)) else view st j)
  update-view short j = elim (Bool-cases (text_eq key j)) [
    | inl same ↦ rw (same, ← (text_eq_iff key j).0 same) (update-view_self short)
    | inr ne ↦ rw ne (update-view_other j ne)
  ]

  pub update-IsValid : IsValid st → IsValid updated
  unfolding put_at
  update-IsValid v = record {
    sized = length-set st.entries i new ∙ v.sized;
    bounded = v.bounded;
    unique = λ k. rw update_slots (rw (same_count k) (v.unique k));
  }
    where
      same_count :
          (k : CString) → count (is_match k) (set (slots st) i new) ≡ count (is_match k) (slots st)
      same_count k = omega (
        arith,
        count-set (is_match k) (slots st) i new blank (found-lt st key i found),
        ap (λ e. bit (is_match k e)) (found-slot st key i found),
        ap bit (updated-is_match now value li key old (found-is_match st key i found) k),
      )
