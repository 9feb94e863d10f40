-- ===== src/Kv/Compact.antt =====
-- `pgraft_kv_compact` of src/pgraft_kv.c against a filter of the entries.
use pgraft.Base.{
  ℕ, zero, suc, ◌+◌, ◌≤◌, ◌≡◌, ◌∙◌, refl, sym, ap, inl, inr, List, length, length-set, length-take,
  ◌==◌, ==_iff, if◌then◌else◌, Bool-cases, get_or, set, take, take-set_ge, set-get_or, squeeze,
  Squeezed, squeeze-Squeezed, filter, length-filter, find-filter, count-filter, CString, arith,
}
use pgraft.Kv.Store.{Entry, Store, blank, slots, is_match}
use pgraft.Kv.Maintain.{move_live, clear_rest, compact_store}
use pgraft.Kv.View.{binding, view, is_live, live_count, IsValid, is_match-is_live}

-- Where `i == j` the entry stays where it is, as if it were written back.
moved-eq :
    (i j : ℕ) (es : List Entry)
    → (if i == j then es else set es j (get_or es i blank)) ≡ set es j (get_or es i blank)
moved-eq i j es = elim (Bool-cases (i == j)) [
  | inl e ↦ rw (e, ← (==_iff i j).0 e) (sym (set-get_or es i blank))
  | inr e ↦ rw e
]

move_live-squeeze :
    (rounds i j : ℕ) (es : List Entry)
    → move_live rounds i j es ≡ squeeze is_live blank rounds i j es
unfolding move_live squeeze is_live
move_live-squeeze zero i j es = refl
move_live-squeeze (suc r) i j es = elim (Bool-cases (get_or es i blank).deleted) [
  | inl dead ↦ rw (dead, move_live, squeeze) (move_live-squeeze r (i + 1) j es)
  | inr live ↦
      rw (live, move_live, squeeze)
        (ap (move_live r (i + 1) (j + 1)) (moved-eq i j es)
          ∙ move_live-squeeze r (i + 1) (j + 1) (set es j (get_or es i blank)))
]

length-clear_rest : (r i : ℕ) (es : List Entry) → length (clear_rest r i es) ≡ length es
unfolding clear_rest
length-clear_rest zero i es = refl
length-clear_rest (suc r) i es =
    length-clear_rest r (i + 1) (set es i blank) ∙ length-set es i blank

-- Clearing from `j` on leaves what stands before `j`.
take-clear_rest : (r i j : ℕ) (es : List Entry) → j ≤ i → take j (clear_rest r i es) ≡ take j es
unfolding clear_rest
take-clear_rest zero i j es le = refl
take-clear_rest (suc r) i j es le =
    take-clear_rest r (i + 1) j (set es i blank) (omega arith) ∙ take-set_ge j es i blank le

module _ (st : Store) (v : IsValid st) where
  pass :
      Squeezed is_live blank st.num_entries 0 0 st.entries (move_live st.num_entries 0 0 st.entries)
  pass = rw (move_live-squeeze st.num_entries 0 0 st.entries) (
      squeeze-Squeezed is_live blank st.num_entries 0 0 st.entries (omega arith)
        (omega (arith, v.sized, v.bounded)))

  -- After a compaction the slots are the entries that were live, in their order.
  compact-slots : slots (compact_store st) ≡ filter is_live (slots st)
  unfolding compact_store
  compact-slots = take-clear_rest _ _ _ _ (omega arith) ∙ pass.kept

  compact-sized : length (compact_store st).entries ≡ 1000
  unfolding compact_store
  compact-sized = length-clear_rest _ _ _ ∙ pass.same_length ∙ v.sized

  compact-bounded : (compact_store st).num_entries ≤ 1000
  unfolding compact_store
  compact-bounded = omega (arith, pass.bound, v.bounded)

  compact-live_count : (compact_store st).num_entries ≡ live_count st
  compact-live_count = omega (
    arith,
    ap length compact-slots,
    length-filter is_live (slots st),
    length-take (compact_store st).num_entries (compact_store st).entries,
    compact-sized,
    compact-bounded,
  )

  -- Compacting a valid store changes no binding, leaves the store valid, and leaves as many
  -- entries in use as there were live ones.
  pub compact-view :
      ((key : CString) → view (compact_store st) key ≡ view st key)
      × IsValid (compact_store st)
      × ((compact_store st).num_entries ≡ live_count st)
  compact-view = (
    λ key.
        rw compact-slots
          (ap binding (find-filter (is_match key) is_live (is_match-is_live key) (slots st))),
    record {
      sized = compact-sized;
      bounded = compact-bounded;
      unique = λ key.
          rw (compact-slots, count-filter (is_match key) is_live (is_match-is_live key))
            (v.unique key);
    },
    compact-live_count,
  )
