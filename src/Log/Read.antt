-- ===== src/Log/Read.antt =====
-- What is read back from the log of src/pgraft_log.c.
use pgraft.Base.{
  ℕ, ◌+◌, ◌<◌, ◌≤◌, ◌≡◌, ◌∙◌, refl, sym, ap, inl, inr, Bool, true, false, Option, none, some, List,
  [], ◌∷◌, ◌++◌, length, get_or, get_or-take, set, take, take-append, take-set_ge, take-all, drop,
  find, find_index, find_index-lt, find_index-find, find_index-none, find-append, first_of_two-none,
  if◌then◌else◌, lt32, ◌==◌, ==_iff, ==_self, lt→leb_false, two63, Bool-cases, Option-cases, Status,
  ok, fail, arith,
}
use pgraft.Log.State.{LogEntry, LogState, blank_entry, max_log, max_data}
use pgraft.Log.Ops.{in_use, has_index, find_entry, copy_data, appended, append_entry, get_entry}
use pgraft.Log.Inv.{Numbered, IsConsistent}
use pgraft.Log.Steps.{add64-one, in_use-append, new_log_entry}

-- What a reader takes from an entry: its index, its term, the `data_size` bytes of its data, and
-- whether it is committed.
abbrev pub carried : LogEntry → ℕ × ℕ × List ℕ × Bool
carried e = (e.index, e.term, take e.data_size e.payload, e.committed)

abbrev pub reported : Option LogEntry → Status × Option (ℕ × ℕ × List ℕ × Bool)
reported none = (fail, none)
reported (some e) = (ok, some (carried e))

abbrev pub shown : Status × Option LogEntry → Status × Option (ℕ × ℕ × List ℕ × Bool)
shown (s, none) = (s, none)
shown (s, some e) = (s, some (carried e))

get_entry-find :
    (index : ℕ) (st : LogState)
    → shown (get_entry index true st) ≡ reported (find (has_index index) (in_use st))
unfolding get_entry find_entry
get_entry-find index st = elim (Option-cases (find_index (has_index index) (in_use st))) [
  | inl e ↦ rw (e, get_entry, find_index-none (has_index index) (in_use st) e)
  | inr (i, e) ↦ rw (
    e,
    get_entry,
    find_index-find (has_index index) (in_use st) i blank_entry e,
    get_or-take st.log_size st.entries i blank_entry
        (find_index-lt (has_index index) (in_use st) i e),
  )
]

-- No entry has an index past the last.
find-past :
    (last index : ℕ) (es : List LogEntry)
    → Numbered last es
    → last < index
    → find (has_index index) es ≡ none
unfolding find has_index
find-past last index [] n h = refl
find-past last index (e ∷ es) n h =
    let other : (e.index == index) ≡ false = differs e.index (omega (arith, n.0)) in
    rw other (find-past last index es n.1 h)
  where
    differs : (a : ℕ) → a ≤ last → (a == index) ≡ false
    differs a le = ground arith

-- The bytes appended, in front of the terminator.
take-copy_data :
    (input old : List ℕ)
    → length input < max_data
    → take (length input) (set (copy_data (some input) (length input) old) (length input) 0) ≡ input
take-copy_data [] old h = refl
take-copy_data (b ∷ input) old h =
    take-set_ge n (copy_data (some (b ∷ input)) n old) n 0 (omega arith)
    ∙ rw (positive n (omega arith) h) (
        ap (λ l. take n (l ++ drop n old)) (take-all n (b ∷ input) (omega arith))
        ∙ take-append (b ∷ input) (drop n old))
  where
    n : ℕ
    n = length (b ∷ input)

    positive : (k : ℕ) → 0 < k → k < max_data → lt32 0 k ≡ true
    positive k p q = ground arith

module _ (now term : ℕ) (input : List ℕ) (st : LogState) (c : IsConsistent st)
    (small : st.last_index + 1 < two63) (room : st.log_size < max_log)
    (short : length input < max_data) where
  abbrev new_entry_here : LogEntry
  new_entry_here = new_log_entry now term (some input) (length input) st c

  carried-new : carried new_entry_here ≡ (st.last_index + 1, term, input, false)
  unfolding appended
  carried-new = rw (add64-one st.last_index small) (
      ap (λ l. (st.last_index + 1, term, l, false))
        (take-copy_data input (get_or st.entries st.log_size blank_entry).payload short))

  appended-ok : append_entry now term (some input) (length input) st ≡ (
    ok,
    record st {
      entries = set st.entries st.log_size new_entry_here;
      log_size = st.log_size + 1;
      last_index = st.last_index + 1;
    },
  )
  unfolding append_entry
  appended-ok =
      rw (fits (length input) short, lt→leb_false _ _ room, lt→leb_false _ _ short)
        (ap
          (λ n. (
            ok,
            record st {
              entries = set st.entries st.log_size new_entry_here;
              log_size = st.log_size + 1;
              last_index = n;
            },
          ))
          (add64-one st.last_index small))
    where
      fits : (k : ℕ) → k < max_data → lt32 max_data k ≡ false
      fits k h = ground arith

  find-new :
      (index : ℕ)
      → st.last_index + 1 ≡ index
      → find (has_index index) (new_entry_here ∷ []) ≡ some new_entry_here
  unfolding find has_index appended
  find-new index e = rw (add64-one st.last_index small, e, ==_self index)

  find-not_new :
      (index : ℕ)
      → (index == st.last_index + 1) ≡ false
      → find (has_index index) (new_entry_here ∷ []) ≡ none
  unfolding find has_index appended
  find-not_new index h =
      let other : (st.last_index + 1 == index) ≡ false = ground arith in
      rw (add64-one st.last_index small, other)

  -- On a consistent log with room, an append of fewer than 1024 bytes succeeds. Then the entry at
  -- the next index is the one appended, with exactly its bytes and uncommitted, and every other
  -- index reads as it did.
  pub get-append :
      ((append_entry now term (some input) (length input) st).0 ≡ ok)
      × ((index : ℕ)
          → shown (get_entry index true (append_entry now term (some input) (length input) st).1)
            ≡ (if index == st.last_index + 1
                then (ok, some (st.last_index + 1, term, input, false))
                else shown (get_entry index true st)))
  get-append = rw appended-ok (refl, λ index. read index)
    where
      read :
          (index : ℕ)
          → shown (
              get_entry index true (record st {
                entries = set st.entries st.log_size new_entry_here;
                log_size = st.log_size + 1;
                last_index = st.last_index + 1;
              }))
            ≡ (if index == st.last_index + 1
                then (ok, some (st.last_index + 1, term, input, false))
                else shown (get_entry index true st))
      read index =
          get_entry-find index (record st {
            entries = set st.entries st.log_size new_entry_here;
            log_size = st.log_size + 1;
            last_index = st.last_index + 1;
          })
          ∙ rw
              (
                in_use-append st new_entry_here c room,
                find-append (has_index index) (in_use st) (new_entry_here ∷ []),
              )
              (elim (Bool-cases (index == st.last_index + 1)) [
                | inl at_new ↦
                    let same : index ≡ st.last_index + 1 = (==_iff _ _).0 at_new in
                    rw
                      (
                        at_new,
                        find-past st.last_index index (in_use st) c.numbered (omega (arith, same)),
                        find-new index (sym same),
                      )
                      (ap (λ x. (ok, some x)) carried-new)
                | inr elsewhere ↦
                    rw (elsewhere, find-not_new index elsewhere)
                      (ap reported (first_of_two-none (find (has_index index) (in_use st)))
                        ∙ sym (get_entry-find index st))
              ])
