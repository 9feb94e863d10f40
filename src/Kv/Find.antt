-- ===== src/Kv/Find.antt =====
-- What `pgraft_kv_find_entry_index` of src/pgraft_kv.c finds, in terms of the binding of the key.
use pgraft.Base.{
  ℕ, ◌<◌, ◌≡◌, ◌∙◌, sym, ap, true, none, some, length, length-take, get_or, get_or-take,
  find_index-none, find_index-find, find_index-holds, find_index-lt, CString, arith,
}
use pgraft.Kv.Store.{Store, blank, slots, is_match, find_entry_index}
use pgraft.Kv.View.{binding, view}

module _ (st : Store) (key : CString) where
  pub find_entry_index-none : find_entry_index st key ≡ none → view st key ≡ none
  unfolding find_entry_index
  find_entry_index-none h = ap binding (find_index-none (is_match key) (slots st) h)

  module _ (i : ℕ) (found : find_entry_index st key ≡ some i) where
    pub found-lt : i < length (slots st)
    unfolding find_entry_index
    found-lt = find_index-lt (is_match key) (slots st) i found

    pub found-lt_num : i < st.num_entries
    found-lt_num = omega (arith, found-lt, length-take st.num_entries st.entries)

    pub found-slot : get_or (slots st) i blank ≡ get_or st.entries i blank
    found-slot = get_or-take st.num_entries st.entries i blank found-lt

    pub found-is_match : is_match key (get_or st.entries i blank) ≡ true
    unfolding find_entry_index
    found-is_match =
        ap (is_match key) (sym found-slot)
        ∙ find_index-holds (is_match key) (slots st) i blank found

    pub found-view :
        view st key ≡ some ((get_or st.entries i blank).value, (get_or st.entries i blank).version)
    unfolding find_entry_index
    found-view =
        ap binding (find_index-find (is_match key) (slots st) i blank found)
        ∙ ap (λ e. binding (some e)) found-slot
