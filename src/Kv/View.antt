-- ===== src/Kv/View.antt =====
-- What a client can tell of a store: the value and version of each key. And the invariant.
use pgraft.Base.{
  ℕ, ◌≤◌, ◌≡◌, Bool, true, false, not, Option, none, some, length, find, count, add64, CString,
  text_eq, text_eq_iff, arith,
}
use pgraft.Kv.Store.{Entry, Store, max_entries, slots, is_match}

abbrev pub binding : Option Entry → Option (CString × ℕ)
binding none = none
binding (some e) = some (e.value, e.version)

-- The binding of a key: its value and version, or none.
abbrev pub view : Store → CString → Option (CString × ℕ)
view st key = binding (find (is_match key) (slots st))

unfoldable pub is_live : Entry → Bool
is_live e = not e.deleted

-- How many slots hold keys that are not deleted.
abbrev pub live_count : Store → ℕ
live_count st = count is_live (slots st)

pub record IsValid (st : Store) : Type 0 where
  pub sized : length st.entries ≡ max_entries
  pub bounded : st.num_entries ≤ max_entries
  pub unique : (key : CString) → count (is_match key) (slots st) ≤ 1

-- An entry that two keys match shows that the keys are one.
pub is_match_ne :
    (k j : CString) (e : Entry) → is_match k e ≡ true → text_eq k j ≡ false → is_match j e ≡ false
unfolding is_match
is_match_ne k j e m ne = ground (arith, text_eq_iff e.key k, text_eq_iff e.key j, text_eq_iff k j)

-- Two keys that are equal are matched alike.
pub is_match_eq : (k j : CString) (e : Entry) → text_eq k j ≡ true → is_match j e ≡ is_match k e
is_match_eq k j e h = ground (arith, text_eq_iff k j)

pub is_match-is_live : (k : CString) (e : Entry) → is_match k e ≡ true → is_live e ≡ true
unfolding is_match is_live
is_match-is_live k e h = ground arith

-- The version that PUT gives a key: 1, or one more than it has.
abbrev pub next_version : Option (CString × ℕ) → ℕ
next_version none = 1
next_version (some (v, n)) = add64 n 1

abbrev pub is_unbound : Option (CString × ℕ) → Bool
is_unbound none = true
is_unbound (some b) = false
