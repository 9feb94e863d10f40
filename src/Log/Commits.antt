-- ===== src/Log/Commits.antt =====
-- Committing and then applying an entry of the log of src/pgraft_log.c.
use pgraft.Base.{
  ℕ, zero, suc, ◌<◌, ◌≡◌, ◌∙◌, refl, sym, ap, inl, inr, Bool, true, some, List, [], ◌∷◌, length,
  length-take, get_or, get_or-take, get_or-set_self, set, take-set_lt, find_index, ◌==◌,
  Option-cases, arith,
}
use pgraft.Log.State.{LogEntry, LogState, blank_entry}
use pgraft.Log.Ops.{
  in_use, has_index, find_entry, commit_at, commit_entry, apply_at, apply_entry, get_entry,
}
use pgraft.Log.Inv.{IsConsistent}
use pgraft.Log.Steps.{find_entry-lt}

find_index-set_same :
    (p : LogEntry → Bool) (es : List LogEntry) (i : ℕ) (e : LogEntry)
    → p e ≡ p (get_or es i blank_entry)
    → find_index p (set es i e) ≡ find_index p es
unfolding find_index
find_index-set_same p [] i e h = refl
find_index-set_same p (x ∷ es) zero e h = rw h
find_index-set_same p (x ∷ es) (suc i) e h = rw (find_index-set_same p es i e h)

-- A commit leaves every entry where it is found.
find-committed :
    (index i : ℕ) (st : LogState)
    → find_entry index st ≡ some i
    → i < length (in_use st)
    → find_entry index (commit_at index st (some i)).1 ≡ some i
unfolding find_entry commit_at has_index
find-committed index i st e lt =
    ap (find_index (has_index index)) (
      take-set_lt st.log_size st.entries i
        (record (get_or st.entries i blank_entry) { committed = true })
        (omega (arith, lt, length-take st.log_size st.entries)))
    ∙ find_index-set_same (has_index index) (in_use st) i _ (
        ap (λ (x : LogEntry). x.index == index)
          (sym (get_or-take st.log_size st.entries i blank_entry lt)))
    ∙ e

-- On a consistent log, an entry can be applied after a commit of its index exactly when the commit
-- succeeded, and that is exactly when the log holds the index.
pub apply-commit :
    (index : ℕ) (st : LogState)
    → IsConsistent st
    → ((apply_entry index (commit_entry index st).1).0 ≡ (commit_entry index st).0)
      × ((commit_entry index st).0 ≡ (get_entry index true st).0)
unfolding commit_entry commit_at apply_entry apply_at get_entry
apply-commit index st c = elim (Option-cases (find_entry index st)) [
  | inl e ↦ rw e (rw e refl, rw (get_entry, e) refl)
  | inr (i, e) ↦
      let (inside, lt, same) = find_entry-lt index i st e in
      rw e (
        rw
            (
              find-committed index i st e lt,
              apply_at,
              get_or-set_self st.entries i
                  (record (get_or st.entries i blank_entry) { committed = true }) blank_entry
                  (omega (arith, inside, c.bounded, c.sized)),
            )
            refl,
        rw (get_entry, e) refl,
      )
]
