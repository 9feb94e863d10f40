-- ===== src/Log/Cleanup.antt =====
-- `pgraft_log_cleanup_old_entries` of src/pgraft_log.c against a filter.
use native.Mathlib.Numerals.{add-one}
use pgraft.Base.{
  ℕ, zero, suc, ◌+◌, ◌-◌, ◌<◌, ◌≤◌, ◌≡◌, ◌∙◌, refl, sym, ap, inl, inr, Bool, true, false, not, List,
  [], ◌∷◌, ◌++◌, append-nil, append_assoc, length, length-take, get_or, get_or-take, take, take-all,
  drop, drop-all, take-suc, drop-cons, filter, remove_at, take-remove_at, drop-remove_at,
  shift_down, length-shift_down, take-shift_down, lt64, Bool-cases, arith,
}
use pgraft.Log.State.{LogEntry, LogState, blank_entry}
use pgraft.Log.Ops.{in_use, cleanup_loop, cleanup_old_entries}

-- The entries that a cleanup before an index keeps.
unfoldable pub stays : ℕ → LogEntry → Bool
stays before_index e = not (lt64 e.index before_index)

module _ (i n : ℕ) (es : List LogEntry) (lt : i < n) (le : n ≤ length es) where
  inside : i < length (take n es)
  inside = omega (arith, length-take n es)

  at_i : get_or (take n es) i blank_entry ≡ get_or es i blank_entry
  at_i = get_or-take n es i blank_entry inside

  drop-at : drop i (take n es) ≡ get_or es i blank_entry ∷ drop (suc i) (take n es)
  drop-at = drop-cons i (take n es) blank_entry inside ∙ ap (λ x. x ∷ drop (suc i) (take n es)) at_i

  take-at : take (suc i) (take n es) ≡ take i (take n es) ++ (get_or es i blank_entry ∷ [])
  take-at =
      take-suc i (take n es) blank_entry inside ∙ ap (λ x. take i (take n es) ++ (x ∷ [])) at_i

module _ (before : ℕ) where
  -- What the rounds from `i` leave of the `n` entries in use.
  record Cleaned (i n : ℕ) (es : List LogEntry) (out : List LogEntry × ℕ) : Type 0 where
    kept : take out.1 out.0 ≡ take i (take n es) ++ filter (stays before) (drop i (take n es))
    within : out.1 ≤ n
    same_length : length out.0 ≡ length es

  Cleaned-drops :
      (i n : ℕ) (es : List LogEntry) (out : List LogEntry × ℕ)
      → i < n
      → n ≤ length es
      → lt64 (get_or es i blank_entry).index before ≡ true
      → Cleaned i (n - 1) (shift_down blank_entry (n - 1 - i) i es) out
      → Cleaned i n es out
  unfolding filter stays
  Cleaned-drops i n es out lt le old c = record {
    kept =
        c.kept
        ∙ rw (shifted, take-remove_at i (take n es), drop-remove_at i (take n es))
            (rw (drop-at i n es lt le, old));
    within = omega (arith, c.within);
    same_length = c.same_length ∙ length-shift_down blank_entry (n - 1 - i) i es;
  }
    where
      shifted : take (n - 1) (shift_down blank_entry (n - 1 - i) i es) ≡ remove_at i (take n es)
      shifted =
          take-shift_down blank_entry i (n - 1 - i) (n - 1) es (omega arith) (omega arith)
          ∙ ap (λ m. remove_at i (take m es)) {x = suc (n - 1)} (omega arith)

  Cleaned-keeps :
      (i n : ℕ) (es : List LogEntry) (out : List LogEntry × ℕ)
      → i < n
      → n ≤ length es
      → lt64 (get_or es i blank_entry).index before ≡ false
      → Cleaned (i + 1) n es out
      → Cleaned i n es out
  unfolding filter stays
  Cleaned-keeps i n es out lt le young c = record {
    kept = c.kept ∙ rw (add-one, take-at i n es lt le, append_assoc, drop-at i n es lt le, young);
    within = c.within;
    same_length = c.same_length;
  }

  cleanup_loop-Cleaned :
      (rounds i n : ℕ) (es : List LogEntry)
      → i + rounds ≡ n
      → n ≤ length es
      → Cleaned i n es (cleanup_loop rounds i n before es)
  unfolding cleanup_loop filter
  cleanup_loop-Cleaned zero i n es e le = record {
    kept =
        sym (append-nil (take n es))
        ∙ rw (
          drop-all i (take n es) (omega (arith, length-take n es)),
          take-all i (take n es) (omega (arith, length-take n es)),
        );
    within = omega arith;
    same_length = refl;
  }
  cleanup_loop-Cleaned (suc rounds) i n es e le =
      elim (Bool-cases (lt64 (get_or es i blank_entry).index before)) [
        | inl old ↦
            rw (old, cleanup_loop)
              (Cleaned-drops i n es _ (omega arith) le old (
                cleanup_loop-Cleaned rounds i (n - 1) (shift_down blank_entry (n - 1 - i) i es)
                  (omega arith) (omega (arith, length-shift_down blank_entry (n - 1 - i) i es))))
        | inr young ↦
            rw (young, cleanup_loop)
              (Cleaned-keeps i n es _ (omega arith) le young
                (cleanup_loop-Cleaned rounds (i + 1) n es (omega arith) le))
      ]

-- In a log of 1000 slots of which no more are in use, a cleanup keeps exactly the entries from
-- that index on, in their order, counts no more than before, and leaves the array its length.
pub cleanup-filter :
    (before : ℕ) (st : LogState)
    → st.log_size ≤ length st.entries
    → (in_use (cleanup_old_entries before st) ≡ filter (stays before) (in_use st))
      × ((cleanup_old_entries before st).log_size ≤ st.log_size)
      × (length (cleanup_old_entries before st).entries ≡ length st.entries)
unfolding cleanup_old_entries
cleanup-filter before st le =
    let c = cleanup_loop-Cleaned before st.log_size 0 st.log_size st.entries (omega arith) le in
    (c.kept, c.within, c.same_length)
