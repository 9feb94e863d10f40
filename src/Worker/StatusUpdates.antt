-- ===== src/Worker/StatusUpdates.antt =====
-- Updates of the status buffer of src/pgraft_util.c.
use pgraft.Base.{
  ℕ, zero, suc, ◌+◌, ◌%◌, ◌<◌, ◌≡◌, ◌∙◌, refl, sym, ap, inl, inr, Bool, true, false, Option, none,
  some, List, [], ◌∷◌, ◌++◌, if◌then◌else◌, Option-cases, get_or, set, length-set, ==_self,
  lt→leb_false, find_index, find, find_index-lt, find_index-find, find_index-none, CString, arith,
}
use pgraft.Ring.Laws.{length-contents}
use pgraft.Ring.Window.{window, get_or-window, window-set_in}
use pgraft.Worker.State.{Command, CommandStatus, no_command, max_commands, Worker}
use pgraft.Worker.Statuses.{add_command_to_status, with_status, update_command_status}
use pgraft.Worker.StatusLaws.{
  tracked, IsTracking, has_time, slot_of, find_status-tracked, add-tracked,
}

-- The oldest command with that time replaced.
unfoldable pub update_first : (Command → Bool) → (Command → Command) → List Command → List Command
update_first p f [] = []
update_first p f (c ∷ cs) = if p c then f c ∷ cs else c ∷ update_first p f cs

update_first-none :
    (p : Command → Bool) (f : Command → Command) (cs : List Command)
    → find_index p cs ≡ none
    → update_first p f cs ≡ cs
unfolding update_first find_index
update_first-none p f [] e = refl
update_first-none p f (c ∷ cs) e = ground (arith, update_first-none p f cs)

update_first-some :
    (p : Command → Bool) (f : Command → Command) (cs : List Command) (k : ℕ)
    → find_index p cs ≡ some k
    → update_first p f cs ≡ set cs k (f (get_or cs k no_command))
unfolding update_first find_index
update_first-some p f [] k e = cc
update_first-some p f (c ∷ cs) zero e = ground arith
update_first-some p f (c ∷ cs) (suc k) e = ground (arith, update_first-some p f cs k)

abbrev pub is_found : Option Command → Bool
is_found none = false
is_found (some c) = true

module _ (timestamp : ℕ) (s : CommandStatus) (m : Option CString) (w : Worker)
    (v : IsTracking w) where
  open w use {status_commands}

  -- Writing the slot of an entry is writing the entry.
  tracked-set :
      (k : ℕ) (c : Command)
      → k < status_commands.count
      → window max_commands no_command
          (set status_commands.slots ((status_commands.head + k) % max_commands) c)
          status_commands.head
          status_commands.count
        ≡ set (tracked w) k c
  tracked-set k c lt =
      window-set_in max_commands no_command status_commands.slots status_commands.head
        status_commands.count k c v.sized lt v.bounded

  inside :
      (k : ℕ) → find_index (has_time timestamp) (tracked w) ≡ some k → k < status_commands.count
  inside k e = omega (
    arith,
    find_index-lt (has_time timestamp) (tracked w) k e,
    length-contents max_commands no_command status_commands,
  )

  -- In a well-formed buffer, an update by time returns whether a tracked command has the time, sets
  -- the status and the message of the oldest of those, changes no other, and leaves the buffer
  -- well-formed.
  pub update-tracked :
      ((update_command_status timestamp s m w).0 ≡ is_found (find (has_time timestamp) (tracked w)))
      × (tracked (update_command_status timestamp s m w).1
          ≡ update_first (has_time timestamp) (with_status s m) (tracked w))
      × IsTracking (update_command_status timestamp s m w).1
  unfolding update_command_status slot_of
  update-tracked = elim (Option-cases (find_index (has_time timestamp) (tracked w))) [
    | inl e ↦
        rw (find_status-tracked timestamp w, e, update_command_status)
          (
            rw (find_index-none (has_time timestamp) (tracked w) e),
            sym (update_first-none (has_time timestamp) (with_status s m) (tracked w) e),
            v,
          )
    | inr (k, e) ↦
        rw (find_status-tracked timestamp w, e, update_command_status)
          (
            rw (find_index-find (has_time timestamp) (tracked w) k no_command e),
            ap
                  (λ c.
                    window max_commands no_command
                      (set status_commands.slots ((status_commands.head + k) % max_commands)
                        (with_status s m c))
                      status_commands.head status_commands.count)
                  (sym (
                    get_or-window max_commands no_command status_commands.slots status_commands.head
                      status_commands.count k (inside k e)))
                ∙ tracked-set k (with_status s m (get_or (tracked w) k no_command)) (inside k e)
                ∙ sym (update_first-some (has_time timestamp) (with_status s m) (tracked w) k e),
            record {
              positive = v.positive;
              sized = length-set status_commands.slots _ _ ∙ v.sized;
              head_in = v.head_in;
              bounded = v.bounded;
              tail_at = v.tail_at;
            },
          )
  ]

update_first-append :
    (p : Command → Bool) (f : Command → Command) (xs ys : List Command)
    → update_first p f (xs ++ ys)
      ≡ (if is_found (find p xs) then update_first p f xs ++ ys else xs ++ update_first p f ys)
unfolding update_first find
update_first-append p f [] ys = refl
update_first-append p f (x ∷ xs) ys = ground (arith, update_first-append p f xs ys)

-- In a well-formed buffer with room, tracking a command and then setting its status by its own time
-- reaches that command only where no tracked command has the same time; else the update goes to the
-- oldest of those, and the new command keeps the status it had.
pub track-update :
    (c : Command) (s : CommandStatus) (m : Option CString) (w : Worker)
    → IsTracking w
    → w.status_commands.count < max_commands
    → tracked (update_command_status c.timestamp s m (add_command_to_status c w)).1 ≡ (
        if is_found (find (has_time c.timestamp) (tracked w))
        then update_first (has_time c.timestamp) (with_status s m) (tracked w) ++ (c ∷ [])
        else tracked w ++ (with_status s m c ∷ []))
unfolding update_first
track-update c s m w v room =
    (update-tracked c.timestamp s m (add_command_to_status c w) (add-tracked c w v).1).1
    ∙ ap (update_first (has_time c.timestamp) (with_status s m)) appended
    ∙ update_first-append (has_time c.timestamp) (with_status s m) (tracked w) (c ∷ [])
    ∙ rw (==_self c.timestamp)
  where
    appended : tracked (add_command_to_status c w) ≡ tracked w ++ (c ∷ [])
    appended =
        (add-tracked c w v).0
        ∙ rw (length-contents max_commands no_command w.status_commands, lt→leb_false _ _ room)
