-- ===== src/Worker/RemoveLoop.antt =====
-- The loop of `pgraft_remove_completed_commands` of src/pgraft_util.c over the slots, against the
-- loop over the entries.
use pgraft.Base.{
  ℕ, zero, suc, ◌+◌, ◌-◌, ◌%◌, ◌<◌, ◌≤◌, ◌≡◌, ◌∙◌, refl, sym, ap, inl, inr, Bool, true, false, not,
  List, ltb, if◌then◌else◌, Bool-cases, get_or, set, set-get_or, length, length-set, squeeze, arith,
}
use mathlib.Core.Path.{ap₂}
use pgraft.Ring.Window.{window, get_or-window, window-set_in}
use pgraft.Worker.State.{Command, no_command, max_commands}
use pgraft.Worker.Statuses.{is_finished, remove_loop}

unfoldable pub is_unfinished : Command → Bool
is_unfinished c = not (is_finished c.status)

-- The loop over the slots is the loop over the entries, in their order.
pub record Mirrors (n head rounds i removed : ℕ) (slots : List Command) (out : List Command × ℕ)
    : Type 0 where
  pub entries :
      ◌≡◌ {A = List Command × ℕ}
        (window max_commands no_command out.0 head n, n - out.1)
        (squeeze is_unfinished no_command rounds i
          (i - removed)
          (window max_commands no_command slots head n))
  pub within : out.1 ≤ i + rounds
  pub same_length : length out.0 ≡ length slots

module _ (n head : ℕ) (small : n ≤ max_commands) where
  -- The write that the loop makes for an entry that stays.
  abbrev kept_slots : ℕ → ℕ → List Command → List Command
  kept_slots i removed slots =
      if ltb 0 removed
      then set slots ((head + i - removed) % max_commands)
          (get_or slots ((head + i) % max_commands) no_command)
      else slots

  kept-window :
      (i removed : ℕ) (slots : List Command)
      → length slots ≡ max_commands
      → i < n
      → removed ≤ i
      → window max_commands no_command (kept_slots i removed slots) head n
        ≡ set
            (window max_commands no_command slots head n)
            (i - removed)
            (get_or (window max_commands no_command slots head n) i no_command)
  kept-window i removed slots sized lt le = elim (Bool-cases (ltb 0 removed)) [
    | inl moves ↦ rw moves (
        ap₂ (λ p c. window max_commands no_command (set slots (p % max_commands) c) head n)
          (back i removed le) (sym (get_or-window max_commands no_command slots head n i lt))
        ∙ window-set_in max_commands no_command slots head n (i - removed)
            (get_or whole i no_command) sized (omega arith) small)
    | inr first ↦
        let none_yet : removed ≡ 0 = ground arith in
        rw first (
          sym (set-get_or whole i no_command)
          ∙ ap (λ k. set whole k (get_or whole i no_command)) (omega (arith, none_yet)))
  ]
    where
      whole : List Command
      whole = window max_commands no_command slots head n

      back : (i removed : ℕ) → removed ≤ i → head + i - removed ≡ head + (i - removed)
      back i removed le = omega arith

  length-kept_slots :
      (i removed : ℕ) (slots : List Command) → length (kept_slots i removed slots) ≡ length slots
  length-kept_slots i removed slots = ground (
    arith,
    length-set slots ((head + i - removed) % max_commands)
        (get_or slots ((head + i) % max_commands) no_command),
  )

  -- One round on a finished entry, and on one that stays.
  Mirrors-done :
      (rounds i removed : ℕ) (slots : List Command) (out : List Command × ℕ)
      → i < n
      → is_finished (get_or slots ((head + i) % max_commands) no_command).status ≡ true
      → Mirrors n head rounds (i + 1) (removed + 1) slots out
      → Mirrors n head (suc rounds) i removed slots out
  unfolding squeeze is_unfinished
  Mirrors-done rounds i removed slots out lt done m = record {
    entries =
        rw (squeeze, get_or-window max_commands no_command slots head n i lt, done)
          (m.entries
            ∙ ap
                (λ j.
                  squeeze is_unfinished no_command rounds (i + 1) j
                    (window max_commands no_command slots head n))
                (omega arith));
    within = omega (arith, m.within);
    same_length = m.same_length;
  }

  Mirrors-kept :
      (rounds i removed : ℕ) (slots : List Command) (out : List Command × ℕ)
      → length slots ≡ max_commands
      → i < n
      → removed ≤ i
      → is_finished (get_or slots ((head + i) % max_commands) no_command).status ≡ false
      → Mirrors n head rounds (i + 1) removed (kept_slots i removed slots) out
      → Mirrors n head (suc rounds) i removed slots out
  unfolding squeeze is_unfinished
  Mirrors-kept rounds i removed slots out sized lt le stays m = record {
    entries =
        rw (squeeze, get_or-window max_commands no_command slots head n i lt, stays)
          (m.entries
            ∙ ap₂ (λ j l. squeeze is_unfinished no_command rounds (i + 1) j l)
                (let e : i + 1 - removed ≡ i - removed + 1 = omega arith in e)
                (kept-window i removed slots sized lt le));
    within = omega (arith, m.within);
    same_length = m.same_length ∙ length-kept_slots i removed slots;
  }

  pub remove_loop-Mirrors :
      (rounds i removed : ℕ) (slots : List Command)
      → length slots ≡ max_commands
      → i + rounds ≡ n
      → removed ≤ i
      → Mirrors n head rounds i removed slots (remove_loop rounds i removed head slots)
  unfolding remove_loop squeeze
  remove_loop-Mirrors zero i removed slots sized whole le = record {
    entries = ap (λ k. (window max_commands no_command slots head n, k - removed)) (omega arith);
    within = omega arith;
    same_length = refl;
  }
  remove_loop-Mirrors (suc rounds) i removed slots sized whole le =
      elim (Bool-cases (is_finished (get_or slots ((head + i) % max_commands) no_command).status)) [
        | inl done ↦
            rw (done, remove_loop)
              (Mirrors-done rounds i removed slots _ (omega arith) done (
                remove_loop-Mirrors rounds (i + 1) (removed + 1) slots sized (omega arith)
                  (omega arith)))
        | inr stays ↦
            rw (stays, remove_loop)
              (Mirrors-kept rounds i removed slots _ sized (omega arith) le stays (
                remove_loop-Mirrors rounds (i + 1) removed (kept_slots i removed slots)
                  (length-kept_slots i removed slots ∙ sized) (omega arith) (omega arith)))
      ]
