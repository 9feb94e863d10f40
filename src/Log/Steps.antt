-- ===== src/Log/Steps.antt =====
-- Appending to the log of src/pgraft_log.c and overwriting an entry, and its consistency.
use pgraft.Base.{
  ℕ, ◌+◌, ◌<◌, ◌≤◌, ◌≡◌, ◌∙◌, refl, sym, ap, inl, inr, Option, some, List, [], ◌∷◌, ◌++◌, length,
  length-set, length-take, get_or, get_or-take, set, take, take-set_end, take-set_lt, find_index-lt,
  find_index-holds, lt64-eq-ltb, lt32, leb, ltb, add64, two63, ==_iff, ltb→lt, Bool-cases, arith,
}
use pgraft.Log.State.{LogEntry, LogState, blank_entry, max_log, max_data}
use pgraft.Log.Ops.{in_use, has_index, find_entry, appended, append_entry, raise_to}
use pgraft.Log.Inv.{
  IsOrdered, IsConsistent, AllOrdered-mono, AllOrdered-append, AllOrdered-set, AllOrdered-get,
  Numbered-append, Numbered-set, Numbered-le,
}

pub add64-one : (n : ℕ) → n + 1 < two63 → add64 n 1 ≡ n + 1
add64-one n h = omega arith

-- The entries in use after a write past the last of them.
pub in_use-append :
    (st : LogState) (e : LogEntry)
    → IsConsistent st
    → st.log_size < max_log
    → take (st.log_size + 1) (set st.entries st.log_size e) ≡ in_use st ++ (e ∷ [])
in_use-append st e c room = take-set_end st.log_size st.entries e (omega (arith, c.sized))

module _ (now term : ℕ) (input : Option (List ℕ)) (size : ℕ) (st : LogState)
    (c : IsConsistent st) where
  -- The entry that an append writes.
  abbrev pub new_log_entry : LogEntry
  new_log_entry =
      appended now term input size (add64 st.last_index 1)
        (get_or st.entries st.log_size blank_entry)

  appended-IsOrdered : IsOrdered st.commit_index st.last_applied new_log_entry
  unfolding appended
  appended-IsOrdered = record {
    committed_within = λ h. cc;
    applied_within = λ h. cc;
    applied_committed = λ h. h;
  }

  pub append-IsConsistent :
      st.last_index + 1 < two63 → IsConsistent (append_entry now term input size st).1
  unfolding append_entry
  append-IsConsistent small = elim (Bool-cases (lt32 max_data size)) [
    | inl large ↦ rw large c
    | inr short ↦ elim (Bool-cases (leb max_log st.log_size)) [
      | inl full ↦ rw (short, full) c
      | inr room ↦ elim (Bool-cases (leb max_data size)) [
        | inl outside ↦ rw (short, room, outside) c
        | inr fits ↦ rw (short, room, fits) (grown (ground arith))
      ]
    ]
  ]
    where
      grown :
          st.log_size < max_log
          → IsConsistent (record st {
            entries = set st.entries st.log_size new_log_entry;
            log_size = st.log_size + 1;
            last_index = add64 st.last_index 1;
          })
      grown room = record {
        sized = length-set st.entries st.log_size new_log_entry ∙ c.sized;
        bounded = omega arith;
        numbered = rw (in_use-append st new_log_entry c room) (
            Numbered-append st.last_index (add64 st.last_index 1) (in_use st) new_log_entry
              c.numbered (add64-one st.last_index small) (unfold appended in refl));
        ordered = rw (in_use-append st new_log_entry c room) (
            AllOrdered-append st.commit_index st.last_applied (in_use st) new_log_entry c.ordered
              appended-IsOrdered);
        positive = rw (add64-one st.last_index small) small;
        commit_within = rw (add64-one st.last_index small) (omega (arith, c.commit_within));
        applied_within = c.applied_within;
      }

pub find_entry-lt :
    (index i : ℕ) (st : LogState)
    → find_entry index st ≡ some i
    → (i < st.log_size)
      × (i < length (in_use st))
      × ((get_or st.entries i blank_entry).index ≡ index)
unfolding find_entry has_index
find_entry-lt index i st e =
    let lt = find_index-lt (has_index index) (in_use st) i e in
    let hit = find_index-holds (has_index index) (in_use st) i blank_entry e in
    (
      omega (arith, lt, length-take st.log_size st.entries),
      lt,
      ap (λ (x : LogEntry). x.index) (sym (get_or-take st.log_size st.entries i blank_entry lt))
          ∙ (==_iff _ _).0 hit,
    )

-- An entry in use overwritten by one with its index.
module _ (st : LogState) (c : IsConsistent st) (i : ℕ) (lt : i < length (in_use st)) where
  pub entry-IsOrdered : IsOrdered st.commit_index st.last_applied (get_or st.entries i blank_entry)
  entry-IsOrdered =
      rw (sym (get_or-take st.log_size st.entries i blank_entry lt))
        (AllOrdered-get st.commit_index st.last_applied (in_use st) i lt c.ordered)

  pub entry-le : (get_or st.entries i blank_entry).index ≤ st.last_index
  entry-le =
      rw (sym (get_or-take st.log_size st.entries i blank_entry lt))
        (Numbered-le st.last_index (in_use st) i lt c.numbered)

  pub overwrite-IsConsistent :
      (e : LogEntry) (commit applied committed_count applied_count : ℕ)
      → e.index ≡ (get_or st.entries i blank_entry).index
      → IsOrdered commit applied e
      → st.commit_index ≤ commit
      → st.last_applied ≤ applied
      → commit ≤ st.last_index
      → applied ≤ commit
      → IsConsistent (record st {
        entries = set st.entries i e;
        commit_index = commit;
        last_applied = applied;
        entries_committed = committed_count;
        entries_applied = applied_count;
      })
  overwrite-IsConsistent e commit applied committed_count applied_count same o p q r s = record {
    sized = length-set st.entries i e ∙ c.sized;
    bounded = c.bounded;
    numbered = rw (take-set_lt st.log_size st.entries i e inside) (
        Numbered-set st.last_index (in_use st) i e c.numbered (
          same
          ∙ ap (λ (x : LogEntry). x.index)
              (sym (get_or-take st.log_size st.entries i blank_entry lt))));
    ordered = rw (take-set_lt st.log_size st.entries i e inside) (
        AllOrdered-set commit applied (in_use st) i e
          (AllOrdered-mono st.commit_index st.last_applied commit applied (in_use st) p q c.ordered)
          o);
    positive = c.positive;
    commit_within = r;
    applied_within = s;
  }
    where
      inside : i < st.log_size
      inside = omega (arith, lt, length-take st.log_size st.entries)

-- Raising a high-water mark that is not negative.
pub raise_to-max :
    (index high : ℕ)
    → index < two63
    → high < two63
    → (high ≤ raise_to index high)
      × (index ≤ raise_to index high)
      × ((bound : ℕ) → high ≤ bound → index ≤ bound → raise_to index high ≤ bound)
raise_to-max index high p q = elim (Bool-cases (ltb high index)) [
  | inl more ↦
      rw (lt64-eq-ltb high index q p, more)
        (omega (arith, ltb→lt high index more), omega arith, λ b r s. s)
  | inr less ↦ rw (lt64-eq-ltb high index q p, less) (omega arith, ground arith, λ b r s. r)
]
