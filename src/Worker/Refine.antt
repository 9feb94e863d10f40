-- ===== src/Worker/Refine.antt =====
-- The calls of the command queue of src/pgraft_util.c, one by one, against the bounded FIFO.
use mathlib.Core.List.{map-append}
use pgraft.Base.{
  ◌<◌, ◌≡◌, ◌∙◌, refl, ap, List, [], ◌∷◌, ◌++◌, map, length, leb, ◌==◌, Bool-cases, inl, inr, arith,
  ==_iff, length-map, lt→ltb,
}
use pgraft.Ring.{push}
use pgraft.Ring.Laws.{
  contents, length-contents, contents-push, push-IsValid, contents-advance, advance-IsValid,
}
use pgraft.Worker.State.{Command, no_command, max_commands, Worker}
use pgraft.Worker.Queue.{
  next_slot, plain_command, log_command, kv_command, enqueue, queue_command, queue_log_command,
  queue_kv_command, dequeue_command,
}
use pgraft.Worker.Fifo.{
  Message, read_as, message, Request, submit_node, submit_log, submit_kv, take_next, Reply,
  accepted, IsProper, AllProper, submitted, took, serve, serve_all, offer, fifo, fifo_all, queued,
  IsQueue,
}

length-queued : (w : Worker) → length (queued w) ≡ w.commands.count
length-queued w =
    length-map (contents max_commands no_command w.commands) message
    ∙ length-contents max_commands no_command w.commands

-- A reply with the queue that is left.
abbrev pub outcome : Reply × Worker → Reply × List Message
outcome r = (r.0, queued r.1)

queued-push :
    (w : Worker) (c : Command)
    → IsQueue w
    → w.commands.count < max_commands
    → queued (record w { commands = push max_commands c w.commands }) ≡ queued w ++ (message c ∷ [])
queued-push w c v room =
    ap (map message) (contents-push max_commands no_command w.commands v c room)
    ∙ map-append message (contents max_commands no_command w.commands) (c ∷ [])

pub enqueue-offer :
    (fill : Command → Command) (m : Message) (w : Worker)
    → IsQueue w
    → message (fill (next_slot w)) ≡ m
    → (outcome (submitted (enqueue fill w)) ≡ offer m (queued w))
      × IsQueue (submitted (enqueue fill w)).1
unfolding enqueue submitted
enqueue-offer fill m w v e = elim (Bool-cases (leb max_commands w.commands.count)) [
  | inl full ↦ rw full (rw (length-queued w) (ground arith), v)
  | inr room ↦
      let lt : w.commands.count < max_commands = ground arith in
      rw room (
        rw (length-queued w, lt→ltb _ _ lt)
            (ap (λ q. (accepted, q))
              (queued-push w (fill (next_slot w)) v lt ∙ ap (λ x. queued w ++ (x ∷ [])) e)),
        push-IsValid max_commands no_command w.commands v (fill (next_slot w)) lt,
      )
]

dequeue-fifo :
    (w : Worker)
    → IsQueue w
    → (outcome (took (dequeue_command w)) ≡ fifo take_next (queued w))
      × IsQueue (took (dequeue_command w)).1
unfolding dequeue_command took fifo
dequeue-fifo w v = elim (Bool-cases (w.commands.count == 0)) [
  | inl none_left ↦ rw none_left (rw (empty_queue w ((==_iff _ _).0 none_left)), v)
  | inr some_left ↦
      let lt : 0 < w.commands.count = ground arith in
      rw some_left (
        rw (ap (map message) (contents-advance max_commands no_command w.commands v lt)) refl,
        advance-IsValid max_commands no_command w.commands v lt,
      )
]
  where
    empty_queue : (u : Worker) → u.commands.count ≡ 0 → queued u ≡ []
    empty_queue u e = rw e

serve-fifo :
    (q : Request) (w : Worker)
    → IsProper q
    → IsQueue w
    → (outcome (serve q w) ≡ fifo q (queued w)) × IsQueue (serve q w).1
unfolding serve fifo queue_command queue_log_command queue_kv_command plain_command log_command
    kv_command message read_as
serve-fifo (submit_node t node_id address port cluster_id now) w p v =
    enqueue-offer (plain_command t node_id address port cluster_id now) _ w v (rw p)
serve-fifo (submit_log t log_data log_index now) w p v =
    enqueue-offer (log_command t log_data log_index now) _ w v (rw p)
serve-fifo (submit_kv t key value client_id now) w p v =
    enqueue-offer (kv_command t key value client_id now) _ w v (rw p)
serve-fifo take_next w p v = dequeue-fifo w v

-- Any sequence of submissions and dequeues, each submission by the function for its type, is
-- answered as a FIFO of at most 100 messages would answer it: a submission is refused exactly
-- when 100 are waiting, nothing is lost, changed or reordered, and what an older command left in
-- the slot is never read.
pub serve_all-fifo :
    (qs : List Request) (w : Worker)
    → AllProper qs
    → IsQueue w
    → serve_all qs w ≡ fifo_all qs (queued w)
unfolding serve_all fifo_all
serve_all-fifo [] w p v = refl
serve_all-fifo (q ∷ qs) w p v =
    let (e, v') = serve-fifo q w p.0 v in cc (e, serve_all-fifo qs (serve q w).1 p.1 v')
