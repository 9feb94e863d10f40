-- ===== src/Log/Inv.antt =====
-- What holds of the log of src/pgraft_log.c throughout.
use pgraft.Base.{
  ℕ, zero, suc, ◌+◌, ◌<◌, ◌≤◌, ◌≡◌, ap, ◌∙◌, Bool, true, List, [], ◌∷◌, ◌++◌, length, length-set,
  length-append, set, get_or, filter, two63, arith, Bool-cases, inl, inr,
}
use pgraft.Log.State.{LogEntry, LogState, max_log, blank_entry}
use pgraft.Log.Ops.{in_use}

-- The indices count up by one to the last.
abbrev pub Numbered : ℕ → List LogEntry → Type 0
Numbered last [] = Unit
Numbered last (e ∷ es) = (e.index + length es ≡ last) × Numbered last es

-- An entry against the commit index and the applied index.
pub record IsOrdered (commit applied : ℕ) (e : LogEntry) : Type 0 where
  pub committed_within : e.committed ≡ true → e.index ≤ commit
  pub applied_within : e.applied ≡ true → e.index ≤ applied
  pub applied_committed : e.applied ≡ true → e.committed ≡ true

abbrev pub AllOrdered : ℕ → ℕ → List LogEntry → Type 0
AllOrdered commit applied [] = Unit
AllOrdered commit applied (e ∷ es) = IsOrdered commit applied e × AllOrdered commit applied es

pub record IsConsistent (st : LogState) : Type 0 where
  pub sized : length st.entries ≡ max_log
  pub bounded : st.log_size ≤ max_log
  pub numbered : Numbered st.last_index (in_use st)
  pub ordered : AllOrdered st.commit_index st.last_applied (in_use st)
  pub positive : st.last_index < two63
  pub commit_within : st.commit_index ≤ st.last_index
  pub applied_within : st.last_applied ≤ st.commit_index

pub IsOrdered-mono :
    (c a c' a' : ℕ) (e : LogEntry) → c ≤ c' → a ≤ a' → IsOrdered c a e → IsOrdered c' a' e
IsOrdered-mono c a c' a' e p q o = record {
  committed_within = λ h. omega (arith, o.committed_within h);
  applied_within = λ h. omega (arith, o.applied_within h);
  applied_committed = o.applied_committed;
}

pub AllOrdered-mono :
    (c a c' a' : ℕ) (es : List LogEntry) → c ≤ c' → a ≤ a' → AllOrdered c a es → AllOrdered c' a' es
AllOrdered-mono c a c' a' [] p q o = tt
AllOrdered-mono c a c' a' (e ∷ es) p q o =
    (IsOrdered-mono c a c' a' e p q o.0, AllOrdered-mono c a c' a' es p q o.1)

pub AllOrdered-append :
    (c a : ℕ) (es : List LogEntry) (e : LogEntry)
    → AllOrdered c a es
    → IsOrdered c a e
    → AllOrdered c a (es ++ (e ∷ []))
AllOrdered-append c a [] e o p = (p, tt)
AllOrdered-append c a (x ∷ es) e o p = (o.0, AllOrdered-append c a es e o.1 p)

pub AllOrdered-set :
    (c a : ℕ) (es : List LogEntry) (i : ℕ) (e : LogEntry)
    → AllOrdered c a es
    → IsOrdered c a e
    → AllOrdered c a (set es i e)
AllOrdered-set c a [] i e o p = tt
AllOrdered-set c a (x ∷ es) zero e o p = (p, o.1)
AllOrdered-set c a (x ∷ es) (suc i) e o p = (o.0, AllOrdered-set c a es i e o.1 p)

pub AllOrdered-get :
    (c a : ℕ) (es : List LogEntry) (i : ℕ)
    → i < length es
    → AllOrdered c a es
    → IsOrdered c a (get_or es i blank_entry)
AllOrdered-get c a [] i h o = elim h [ ]
AllOrdered-get c a (x ∷ es) zero h o = o.0
AllOrdered-get c a (x ∷ es) (suc i) h o = AllOrdered-get c a es i (omega arith) o.1

pub AllOrdered-filter :
    (p : LogEntry → Bool) (c a : ℕ) (es : List LogEntry)
    → AllOrdered c a es
    → AllOrdered c a (filter p es)
unfolding filter
AllOrdered-filter p c a [] o = tt
AllOrdered-filter p c a (e ∷ es) o = elim (Bool-cases (p e)) [
  | inl keeps ↦ rw keeps (o.0, AllOrdered-filter p c a es o.1)
  | inr goes ↦ rw goes (AllOrdered-filter p c a es o.1)
]

pub Numbered-append :
    (last next : ℕ) (es : List LogEntry) (e : LogEntry)
    → Numbered last es
    → next ≡ last + 1
    → e.index ≡ next
    → Numbered next (es ++ (e ∷ []))
Numbered-append last next [] e n g h = (omega arith, tt)
Numbered-append last next (x ∷ es) e n g h =
    (omega (arith, n.0, length-append es (e ∷ [])), Numbered-append last next es e n.1 g h)

pub Numbered-set :
    (last : ℕ) (es : List LogEntry) (i : ℕ) (e : LogEntry)
    → Numbered last es
    → e.index ≡ (get_or es i blank_entry).index
    → Numbered last (set es i e)
Numbered-set last [] i e n h = tt
Numbered-set last (x ∷ es) zero e n h = (ap (λ k. k + length es) h ∙ n.0, n.1)
Numbered-set last (x ∷ es) (suc i) e n h =
    (ap (λ k. x.index + k) (length-set es i e) ∙ n.0, Numbered-set last es i e n.1 h)

-- Each index is at most the last.
pub Numbered-le :
    (last : ℕ) (es : List LogEntry) (i : ℕ)
    → i < length es
    → Numbered last es
    → (get_or es i blank_entry).index ≤ last
Numbered-le last [] i h n = elim h [ ]
Numbered-le last (x ∷ es) zero h n = omega (arith, n.0)
Numbered-le last (x ∷ es) (suc i) h n = Numbered-le last es i (omega arith) n.1
