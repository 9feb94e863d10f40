-- ===== src/Kv/Get.antt =====
-- `pgraft_kv_get` of src/pgraft_kv.c against the map of bindings.
use pgraft.Base.{
  ℕ, ◌-◌, ◌≡◌, refl, inl, inr, false, ◌≢◌, none, some, Option, ◌==◌, if◌then◌else◌, Bool-cases,
  Option-cases, CString, copy_text, ok, fail, arith,
}
use pgraft.Kv.Store.{Store, find_entry_index, get_at, get_store}
use pgraft.Kv.View.{view, IsValid, is_unbound}
use pgraft.Kv.Find.{find_entry_index-none, found-view}

abbrev pub found_value : ℕ → Option (CString × ℕ) → Option (CString × ℕ)
found_value size none = none
found_value size (some (value, version)) = some (copy_text (size - 1) value, version)

module _ (key : CString) (value_size : ℕ) (st : Store) (sized : value_size ≢ 0) where
  -- With a buffer of at least one byte, GET succeeds exactly when the key is bound, yields the
  -- version and as much of the value as fits before the terminator, and changes no entry.
  pub get-view :
      (((get_store key value_size st).0 ≡ (if is_unbound (view st key) then fail else ok))
        × ((get_store key value_size st).1 ≡ found_value value_size (view st key)))
      × ((get_store key value_size st).2.entries ≡ st.entries)
      × ((get_store key value_size st).2.num_entries ≡ st.num_entries)
  unfolding get_store get_at
  get-view = elim (Option-cases (find_entry_index st key)) [
    | inl e ↦ rw (e, find_entry_index-none st key e) ((refl, refl), refl, refl)
    | inr (i, e) ↦ rw (e, found-view st key i e, nonzero) ((refl, refl), refl, refl)
  ]
    where
      nonzero : (value_size == 0) ≡ false
      nonzero = ground arith

-- What GET leaves in the store, whatever the buffer.
get_at-IsValid :
    (value_size : ℕ) (st : Store) (found : Option ℕ)
    → IsValid st
    → IsValid (get_at value_size st found).2
unfolding get_at
get_at-IsValid size st none v = v
get_at-IsValid size st (some i) v = elim (Bool-cases (size == 0)) [
  | inl e ↦ rw e v
  | inr e ↦ rw e (record { sized = v.sized; bounded = v.bounded; unique = v.unique })
]

pub get-IsValid :
    (key : CString) (value_size : ℕ) (st : Store)
    → IsValid st
    → IsValid (get_store key value_size st).2
unfolding get_store
get-IsValid key size st v = get_at-IsValid size st (find_entry_index st key) v
