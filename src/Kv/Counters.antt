-- ===== src/Kv/Counters.antt =====
-- The statistics of src/pgraft_kv.c: the counts of the operations against the total.
use pgraft.Base.{
  ℕ, ◌+◌, ◌%◌, ◌≡◌, inl, inr, Option, none, some, leb, Bool-cases, length, CString, two64, arith,
  ◌==◌,
}
use pgraft.Kv.Store.{
  Store, find_entry_index, max_entries, put_at, put_store, get_at, get_store, delete_at,
  delete_store,
}
use pgraft.Kv.Maintain.{compact_store}

-- The statistics add up, modulo the width of the counters.
abbrev pub IsCounted : Store → Type 0
IsCounted st = st.total_operations ≡ (st.puts + st.deletes + st.gets) % two64

module _ (st : Store) (c : IsCounted st) where
  put_at-IsCounted :
      (now : ℕ) (key value : CString) (li : ℕ) (found : Option ℕ)
      → IsCounted (put_at now key value li st found).1
  unfolding put_at
  put_at-IsCounted now key value li (some i) = omega arith
  put_at-IsCounted now key value li none = elim (Bool-cases (leb max_entries st.num_entries)) [
    | inl full ↦ rw full c
    | inr room ↦ rw room (omega arith)
  ]

  pub put-IsCounted :
      (now : ℕ) (key value : CString) (li : ℕ) → IsCounted (put_store now key value li st).1
  unfolding put_store
  put-IsCounted now key value li = elim (Bool-cases (leb 256 (length key))) [
    | inl long ↦ rw long c
    | inr short ↦ rw short (elim (Bool-cases (leb 1024 (length value))) [
      | inl long ↦ rw long c
      | inr fits ↦ rw fits (put_at-IsCounted now key value li (find_entry_index st key))
    ])
  ]

  delete_at-IsCounted : (now li : ℕ) (found : Option ℕ) → IsCounted (delete_at now li st found).1
  unfolding delete_at
  delete_at-IsCounted now li none = c
  delete_at-IsCounted now li (some i) = omega arith

  pub delete-IsCounted :
      (now : ℕ) (key : CString) (li : ℕ) → IsCounted (delete_store now key li st).1
  unfolding delete_store
  delete-IsCounted now key li = delete_at-IsCounted now li (find_entry_index st key)

  get_at-IsCounted : (size : ℕ) (found : Option ℕ) → IsCounted (get_at size st found).2
  unfolding get_at
  get_at-IsCounted size none = c
  get_at-IsCounted size (some i) = elim (Bool-cases (size == 0)) [
    | inl e ↦ rw e c
    | inr e ↦ rw e (omega arith)
  ]

  pub get-IsCounted : (key : CString) (size : ℕ) → IsCounted (get_store key size st).2
  unfolding get_store
  get-IsCounted key size = get_at-IsCounted size (find_entry_index st key)

  pub compact-IsCounted : IsCounted (compact_store st)
  unfolding compact_store
  compact-IsCounted = c
