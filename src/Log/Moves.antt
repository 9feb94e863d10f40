-- ===== src/Log/Moves.antt =====
-- Committing, applying, cleaning up and resetting the log of src/pgraft_log.c, and its consistency.
use pgraft.Base.{
  ℕ, ◌<◌, ◌≤◌, ◌≡◌, ◌∙◌, refl, ap, inl, inr, true, false, some, List, [], ◌∷◌, length,
  length-replicate, get_or, filter, lt64, two63, Bool-cases, Option-cases, add64, arith,
}
use pgraft.Log.State.{LogEntry, LogState, blank_entry, max_log, empty_log}
use pgraft.Log.Ops.{
  in_use, find_entry, raise_to, commit_at, commit_entry, apply_at, apply_entry, replicate_to_node,
  cleanup_old_entries, reset_log,
}
use pgraft.Log.Cleanup.{stays, cleanup-filter}
use pgraft.Log.Inv.{Numbered, IsOrdered, IsConsistent, AllOrdered-filter}
use pgraft.Log.Steps.{
  find_entry-lt, entry-IsOrdered, entry-le, overwrite-IsConsistent, raise_to-max,
}

pub commit-IsConsistent :
    (index : ℕ) (st : LogState) → IsConsistent st → IsConsistent (commit_entry index st).1
unfolding commit_entry commit_at
commit-IsConsistent index st c = elim (Option-cases (find_entry index st)) [
  | inl e ↦ rw e c
  | inr (i, e) ↦ rw e (committed i (find_entry-lt index i st e))
]
  where
    committed :
        (i : ℕ)
        → (i < st.log_size)
          × (i < length (in_use st))
          × ((get_or st.entries i blank_entry).index ≡ index)
        → IsConsistent (commit_at index st (some i)).1
    committed i (inside, lt, same) =
        let e : LogEntry = get_or st.entries i blank_entry in
        let o : IsOrdered st.commit_index st.last_applied e = entry-IsOrdered st c i lt in
        let m =
          raise_to-max index st.commit_index (omega (arith, entry-le st c i lt, c.positive, same))
            (omega (arith, c.positive, c.commit_within)) in
        overwrite-IsConsistent st c i lt (record e { committed = true })
          (raise_to index st.commit_index) st.last_applied _ _ refl
          (record {
            committed_within = λ h. omega (arith, m.1, same);
            applied_within = o.applied_within;
            applied_committed = λ h. refl;
          })
          m.0 (omega arith)
          (m.2 st.last_index c.commit_within (omega (arith, entry-le st c i lt, same)))
          (omega (arith, m.0, c.applied_within))

pub apply-IsConsistent :
    (index : ℕ) (st : LogState) → IsConsistent st → IsConsistent (apply_entry index st).1
unfolding apply_entry apply_at
apply-IsConsistent index st c = elim (Option-cases (find_entry index st)) [
  | inl e ↦ rw e c
  | inr (i, e) ↦ rw e (applied i (find_entry-lt index i st e))
]
  where
    applied :
        (i : ℕ)
        → (i < st.log_size)
          × (i < length (in_use st))
          × ((get_or st.entries i blank_entry).index ≡ index)
        → IsConsistent (apply_at index st (some i)).1
    applied i (inside, lt, same) = elim (Bool-cases (get_or st.entries i blank_entry).committed) [
      | inr waits ↦ rw waits c
      | inl ready ↦
          let e : LogEntry = get_or st.entries i blank_entry in
          let o : IsOrdered st.commit_index st.last_applied e = entry-IsOrdered st c i lt in
          let high : index ≤ st.commit_index = omega (arith, o.committed_within ready, same) in
          let m =
            raise_to-max index st.last_applied (omega (arith, entry-le st c i lt, c.positive, same))
              (omega (arith, c.positive, c.commit_within, c.applied_within)) in
          rw ready (
            overwrite-IsConsistent st c i lt (record e { committed = true; applied = true })
              st.commit_index (raise_to index st.last_applied) st.entries_committed
              (add64 st.entries_applied 1) refl
              (record {
                committed_within = λ h. o.committed_within ready;
                applied_within = λ h. omega (arith, m.1, same);
                applied_committed = λ h. refl;
              })
              (omega arith) m.0 c.commit_within (m.2 st.commit_index c.applied_within high))
    ]

-- An entry before which nothing is cut off, and those behind it.
stays_behind :
    (before last : ℕ) (e : LogEntry) (es : List LogEntry)
    → last < two63
    → Numbered last (e ∷ es)
    → lt64 e.index before ≡ false
    → filter (stays before) es ≡ es
unfolding filter stays
stays_behind before last e [] small n h = refl
stays_behind before last e (x ∷ es) small n h =
    let next : lt64 x.index before ≡ false =
      later e.index x.index (omega (arith, n.0, n.1.0)) (omega (arith, n.1.0)) h in
    rw next (ap (λ t. x ∷ t) (stays_behind before last x es small n.1 next))
  where
    later : (a b : ℕ) → a ≤ b → b < two63 → lt64 a before ≡ false → lt64 b before ≡ false
    later a b le lt h = ground arith

Numbered-filter :
    (before last : ℕ) (es : List LogEntry)
    → last < two63
    → Numbered last es
    → Numbered last (filter (stays before) es)
unfolding filter stays
Numbered-filter before last [] small n = tt
Numbered-filter before last (e ∷ es) small n = elim (Bool-cases (lt64 e.index before)) [
  | inl old ↦ rw old (Numbered-filter before last es small n.1)
  | inr young ↦ rw (young, stays_behind before last e es small n young) n
]

pub cleanup-IsConsistent :
    (before : ℕ) (st : LogState) → IsConsistent st → IsConsistent (cleanup_old_entries before st)
unfolding cleanup_old_entries
cleanup-IsConsistent before st c =
    let f = cleanup-filter before st (omega (arith, c.bounded, c.sized)) in
    record {
      sized = f.2 ∙ c.sized;
      bounded = omega (arith, f.1, c.bounded);
      numbered = rw f.0 (Numbered-filter before st.last_index (in_use st) c.positive c.numbered);
      ordered =
          rw f.0 (
            AllOrdered-filter (stays before) st.commit_index st.last_applied (in_use st) c.ordered);
      positive = c.positive;
      commit_within = c.commit_within;
      applied_within = c.applied_within;
    }

pub replicate-IsConsistent :
    (from_index : ℕ) (st : LogState)
    → IsConsistent st
    → IsConsistent (replicate_to_node from_index st).1
unfolding replicate_to_node
replicate-IsConsistent from_index st c = record {
  sized = c.sized;
  bounded = c.bounded;
  numbered = c.numbered;
  ordered = c.ordered;
  positive = c.positive;
  commit_within = c.commit_within;
  applied_within = c.applied_within;
}

pub reset-IsConsistent : (st : LogState) → IsConsistent st → IsConsistent (reset_log st)
unfolding reset_log
reset-IsConsistent st c = record {
  sized = c.sized;
  bounded = omega arith;
  numbered = tt;
  ordered = tt;
  positive = omega arith;
  commit_within = omega arith;
  applied_within = omega arith;
}

pub empty-IsConsistent : IsConsistent empty_log
empty-IsConsistent = record {
  sized = length-replicate max_log blank_entry;
  bounded = omega arith;
  numbered = tt;
  ordered = tt;
  positive = omega arith;
  commit_within = omega arith;
  applied_within = omega arith;
}
