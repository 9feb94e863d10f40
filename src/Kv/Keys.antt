-- ===== src/Kv/Keys.antt =====
-- `pgraft_kv_exists` of src/pgraft_kv.c and the key list of src/pgraft_json.c.
use pgraft.Base.{
  ◌≤◌, ◌≡◌, ◌∙◌, refl, not, ◌≢◌, some, List, [], ◌∷◌, map, inl, inr, Option-cases, count, find,
  filter, bit, text_eq, CString, arith, count_of_find-none, find_of_count_zero,
}
use pgraft.Kv.Store.{Entry, Store, slots, is_match, find_entry_index}
use pgraft.Kv.View.{view, is_live, is_unbound, IsValid}
use pgraft.Kv.Find.{find_entry_index-none, found-view}
use pgraft.Kv.Service.{Disk, exists, listed_keys}

count-listed :
    (key : CString) (es : List Entry)
    → count (λ k. text_eq k key) (map (λ (e : Entry). e.key) (filter is_live es))
      ≡ count (is_match key) es
unfolding count filter is_live is_match
count-listed key [] = refl
count-listed key (e ∷ es) = ground (arith, count-listed key es)

bit-bound :
    (key : CString) (st : Store)
    → count (is_match key) (slots st) ≤ 1
    → count (is_match key) (slots st) ≡ bit (not (is_unbound (view st key)))
bit-bound key st one = elim (Option-cases (find (is_match key) (slots st))) [
  | inl e ↦ rw e (count_of_find-none (is_match key) (slots st) e)
  | inr (x, e) ↦ rw e (omega (arith, some_found x e))
]
  where
    some_found :
        (x : Entry) → find (is_match key) (slots st) ≡ some x → count (is_match key) (slots st) ≢ 0
    some_found x e z = cc (e, find_of_count_zero (is_match key) (slots st) z)

-- In a valid store the key list holds a key once if it is bound and not at all otherwise, and
-- `pgraft_kv_exists` answers whether it is bound.
pub listed-bound :
    (key : CString) (st : Store) (d : Disk)
    → IsValid st
    → (count (λ k. text_eq k key) (listed_keys st) ≡ bit (not (is_unbound (view st key))))
      × (exists (some key) (record { store = some st; disk = d }) ≡ not (is_unbound (view st key)))
unfolding listed_keys exists
listed-bound key st d v = (
  count-listed key (slots st) ∙ bit-bound key st (v.unique key),
  elim (Option-cases (find_entry_index st key)) [
    | inl e ↦ rw (e, exists, find_entry_index-none st key e)
    | inr (i, e) ↦ rw (e, exists, found-view st key i e)
  ],
)
