-- ===== src/Worker/StatusLaws.antt =====
-- What the status buffer of src/pgraft_util.c keeps, finds and updates.
use pgraft.Base.{
  ℕ, zero, suc, ◌+◌, ◌%◌, ◌<◌, ◌≡◌, ◌∙◌, refl, sym, ap, inl, inr, Bool, Option, none, some, List,
  [], ◌∷◌, ◌++◌, leb, ◌==◌, if◌then◌else◌, Bool-cases, Option-cases, drop, get_or, length,
  find_index, find, find_index-lt, find_index-find, find_index-none, next_index, arith,
}
use pgraft.Ring.{Ring, advance}
use pgraft.Ring.Laws.{
  IsValid, contents, length-contents, contents-push, push-IsValid, contents-advance,
  advance-IsValid,
}
use pgraft.Ring.Window.{window, get_or-window}
use pgraft.Worker.State.{Command, no_command, max_commands, Worker}
use pgraft.Worker.Statuses.{add_command_to_status, find_status, get_command_status}

-- The commands whose status is kept, oldest first.
abbrev pub tracked : Worker → List Command
tracked w = contents max_commands no_command w.status_commands

abbrev pub IsTracking : Worker → Type 0
IsTracking w = IsValid max_commands w.status_commands

-- The buffer with one more command: the oldest goes where there are 100.
abbrev pub remember : Command → List Command → List Command
remember c l = if leb max_commands (length l) then drop 1 l ++ (c ∷ []) else l ++ (c ∷ [])

abbrev pub has_time : ℕ → Command → Bool
has_time timestamp c = c.timestamp == timestamp

-- Tracking a command appends it to the commands tracked, and gives up the oldest where 100 are; the
-- buffer stays well-formed.
pub add-tracked :
    (c : Command) (w : Worker)
    → IsTracking w
    → (tracked (add_command_to_status c w) ≡ remember c (tracked w))
      × IsTracking (add_command_to_status c w)
unfolding add_command_to_status
add-tracked c w v = elim (Bool-cases (leb max_commands r.count)) [
  | inl full ↦
      let pos : 0 < r.count = ground arith in
      let v' : IsValid max_commands less = advance-IsValid max_commands no_command r v pos in
      let room : less.count < max_commands = unfold advance in omega (arith, v.bounded, pos) in
      rw full (
        contents-push max_commands no_command less v' c room
            ∙ rw (length-contents max_commands no_command r, full)
                (ap (λ l. drop 1 l ++ (c ∷ []))
                  (sym (contents-advance max_commands no_command r v pos))),
        push-IsValid max_commands no_command less v' c room,
      )
  | inr room ↦
      let lt : r.count < max_commands = ground arith in
      rw room (
        contents-push max_commands no_command r v c lt
            ∙ rw (length-contents max_commands no_command r, room),
        push-IsValid max_commands no_command r v c lt,
      )
]
  where
    r : Ring Command
    r = w.status_commands

    less : Ring Command
    less = advance max_commands r

unfoldable pub slot_of : ℕ → Option ℕ → Option ℕ
slot_of h none = none
slot_of h (some k) = some ((h + k) % max_commands)

slot_of-next_index : (h : ℕ) (o : Option ℕ) → slot_of h (next_index o) ≡ slot_of (suc h) o
unfolding slot_of
slot_of-next_index h none = refl
slot_of-next_index h (some k) = ap (λ t. some (t % max_commands)) (omega arith)

find_status-find_index :
    (n i : ℕ) (timestamp : ℕ) (r : Ring Command)
    → find_status n i timestamp r
      ≡ slot_of
          (r.head + i)
          (find_index (has_time timestamp) (window max_commands no_command r.slots (r.head + i) n))
unfolding find_status find_index slot_of
find_status-find_index zero i ts r = refl
find_status-find_index (suc n) i ts r =
    elim (Bool-cases (has_time ts (get_or r.slots ((r.head + i) % max_commands) no_command))) [
      | inl hit ↦ rw hit (ap (λ t. some (t % max_commands)) (omega arith))
      | inr miss ↦
          rw (miss, find_status-find_index n (i + 1) ts r)
            (ap
                (λ t.
                  slot_of t (find_index (has_time ts) (window max_commands no_command r.slots t n)))
                (omega arith)
              ∙ sym (slot_of-next_index (r.head + i) _))
    ]

-- The slot found is that of the first entry of the buffer with the time.
pub find_status-tracked :
    (timestamp : ℕ) (w : Worker)
    → find_status w.status_commands.count 0 timestamp w.status_commands
      ≡ slot_of w.status_commands.head (find_index (has_time timestamp) (tracked w))
find_status-tracked ts w =
    find_status-find_index w.status_commands.count 0 ts w.status_commands
    ∙ ap
        (λ t. slot_of t (
          find_index (has_time ts)
            (window max_commands no_command w.status_commands.slots t w.status_commands.count)))
        (omega arith)

-- A status asked for by time is the one of the oldest tracked command with that time, if any.
pub get-tracked :
    (timestamp : ℕ) (w : Worker)
    → get_command_status timestamp w ≡ find (has_time timestamp) (tracked w)
unfolding get_command_status slot_of
get-tracked ts w = elim (Option-cases (find_index (has_time ts) (tracked w))) [
  | inl e ↦
      rw (find_status-tracked ts w, e, get_command_status)
        (sym (find_index-none (has_time ts) (tracked w) e))
  | inr (k, e) ↦
      rw (find_status-tracked ts w, e, get_command_status)
        (ap some (
            sym (
              get_or-window max_commands no_command w.status_commands.slots w.status_commands.head
                w.status_commands.count k (inside k e)))
          ∙ sym (find_index-find (has_time ts) (tracked w) k no_command e))
]
  where
    inside : (k : ℕ) → find_index (has_time ts) (tracked w) ≡ some k → k < w.status_commands.count
    inside k e = omega (
      arith,
      find_index-lt (has_time ts) (tracked w) k e,
      length-contents max_commands no_command w.status_commands,
    )
