-- ===== src/Worker/ApplyFifo.antt =====
-- The queue of committed Raft entries of src/pgraft_util.c against a bounded FIFO.
use mathlib.Core.List.{map-append}
use pgraft.Base.{
  ℕ, ◌<◌, ◌≡◌, ◌∙◌, refl, ap, Bool, true, false, ◌&&◌, Option, none, some, List, [], ◌∷◌, ◌++◌, map,
  length, take, drop, get_or, take-all, take-append, lt→ltb, leb, ltb, ◌==◌, if◌then◌else◌,
  Bool-cases, inl, inr, arith, ==_iff, length-map,
}
use pgraft.Ring.{push}
use pgraft.Ring.Laws.{
  IsValid, contents, length-contents, contents-push, push-IsValid, contents-advance,
  advance-IsValid,
}
use pgraft.Worker.State.{ApplyEntry, no_entry, max_apply_entries, Worker}
use pgraft.Worker.Apply.{max_payload, fill_entry, enqueue_apply_entry, dequeue_apply_entry}

-- What the reader takes from an entry: its index and its first `data_len` bytes.
abbrev pub received : ApplyEntry → ℕ × List ℕ
received e = (e.raft_index, take e.data_len e.payload)

abbrev pub waiting : Worker → List (ℕ × List ℕ)
waiting w = map received (contents max_apply_entries no_entry w.apply_queue)

abbrev pub IsApplyQueue : Worker → Type 0
IsApplyQueue w = IsValid max_apply_entries w.apply_queue

-- A committed entry handed over with the length of its data, and a dequeue.
pub data Step : Type 0 where
  commit : ℕ → List ℕ → Step
  fetch : Step

pub data Answer : Type 0 where
  taken_in : Bool → Answer
  handed_out : Option (ℕ × List ℕ) → Answer

unfoldable pub handed : Option ApplyEntry × Worker → Answer × Worker
handed (none, w) = (handed_out none, w)
handed (some e, w) = (handed_out (some (received e)), w)

unfoldable pub perform : Step → Worker → Answer × Worker
perform (commit raft_index input) w =
    let (done, w') = enqueue_apply_entry raft_index (some input) (length input) w in
    (taken_in done, w')
perform fetch w = handed (dequeue_apply_entry w)

unfoldable pub perform_all : List Step → Worker → List Answer
perform_all [] w = []
perform_all (s ∷ steps) w = let (a, w') = perform s w in a ∷ perform_all steps w'

-- The specification: a FIFO of at most 1000 entries of at most 4096 bytes each.
unfoldable pub expected : Step → List (ℕ × List ℕ) → Answer × List (ℕ × List ℕ)
expected (commit raft_index input) queue =
    if ltb (length queue) max_apply_entries && leb (length input) max_payload
    then (taken_in true, queue ++ ((raft_index, input) ∷ []))
    else (taken_in false, queue)
expected fetch [] = (handed_out none, [])
expected fetch (e ∷ queue) = (handed_out (some e), queue)

unfoldable pub expected_all : List Step → List (ℕ × List ℕ) → List Answer
expected_all [] queue = []
expected_all (s ∷ steps) queue = let (a, queue') = expected s queue in a ∷ expected_all steps queue'

length-waiting : (w : Worker) → length (waiting w) ≡ w.apply_queue.count
length-waiting w =
    length-map (contents max_apply_entries no_entry w.apply_queue) received
    ∙ length-contents max_apply_entries no_entry w.apply_queue

abbrev left : Answer × Worker → Answer × List (ℕ × List ℕ)
left r = (r.0, waiting r.1)

received-fill_entry :
    (raft_index : ℕ) (input : List ℕ) (old : ApplyEntry)
    → received (fill_entry raft_index (some input) (length input) old) ≡ (raft_index, input)
unfolding fill_entry
received-fill_entry raft_index input old =
    ap (λ l. (raft_index, l))
      (rw (take-all (length input) input (omega arith))
        (take-append input (drop (length input) old.payload)))

waiting-push :
    (w : Worker) (e : ApplyEntry)
    → IsApplyQueue w
    → w.apply_queue.count < max_apply_entries
    → waiting (record w { apply_queue = push max_apply_entries e w.apply_queue })
      ≡ waiting w ++ (received e ∷ [])
waiting-push w e v room =
    ap (map received) (contents-push max_apply_entries no_entry w.apply_queue v e room)
    ∙ map-append received (contents max_apply_entries no_entry w.apply_queue) (e ∷ [])

commit-expected :
    (raft_index : ℕ) (input : List ℕ) (w : Worker)
    → IsApplyQueue w
    → (left (perform (commit raft_index input) w) ≡ expected (commit raft_index input) (waiting w))
      × IsApplyQueue (perform (commit raft_index input) w).1
unfolding perform expected enqueue_apply_entry
commit-expected raft_index input w v =
    elim (Bool-cases (leb max_apply_entries w.apply_queue.count)) [
      | inl full ↦ rw full (rw (length-waiting w) (ground arith), v)
      | inr room ↦
          let lt : w.apply_queue.count < max_apply_entries = ground arith in
          elim (Bool-cases (ltb max_payload (length input))) [
            | inl large ↦
                rw (room, large)
                  (
                    rw (length-waiting w, lt→ltb _ _ lt) (rw (le-leb_no (length input) large) refl),
                    v,
                  )
            | inr fits ↦
                rw (room, fits)
                  (
                    rw (length-waiting w, lt→ltb _ _ lt)
                        (rw (le-leb_yes (length input) fits) (
                          ap (λ q. (taken_in true, q))
                            (waiting-push w _ v lt
                              ∙ ap (λ e. waiting w ++ (e ∷ []))
                                  (received-fill_entry raft_index input
                                    (get_or w.apply_queue.slots w.apply_queue.tail no_entry))))),
                    push-IsValid max_apply_entries no_entry w.apply_queue v _ lt,
                  )
          ]
    ]
  where
    le-leb_no : (n : ℕ) → ltb max_payload n ≡ true → leb n max_payload ≡ false
    le-leb_no n h = ground arith

    le-leb_yes : (n : ℕ) → ltb max_payload n ≡ false → leb n max_payload ≡ true
    le-leb_yes n h = ground arith

fetch-expected :
    (w : Worker)
    → IsApplyQueue w
    → (left (perform fetch w) ≡ expected fetch (waiting w)) × IsApplyQueue (perform fetch w).1
unfolding perform expected dequeue_apply_entry handed
fetch-expected w v = elim (Bool-cases (w.apply_queue.count == 0)) [
  | inl none_left ↦ rw none_left (rw (empty_queue w ((==_iff _ _).0 none_left)), v)
  | inr some_left ↦
      let lt : 0 < w.apply_queue.count = ground arith in
      rw some_left (
        rw (ap (map received) (contents-advance max_apply_entries no_entry w.apply_queue v lt))
            refl,
        advance-IsValid max_apply_entries no_entry w.apply_queue v lt,
      )
]
  where
    empty_queue : (u : Worker) → u.apply_queue.count ≡ 0 → waiting u ≡ []
    empty_queue u e = rw e

step-expected :
    (s : Step) (w : Worker)
    → IsApplyQueue w
    → (left (perform s w) ≡ expected s (waiting w)) × IsApplyQueue (perform s w).1
step-expected (commit raft_index input) w v = commit-expected raft_index input w v
step-expected fetch w v = fetch-expected w v

-- Any sequence of committed entries handed over and of dequeues is answered as a FIFO of at most
-- 1000 entries would answer it, one that refuses an entry of more than 4096 bytes: each entry
-- comes out once, in its turn, with its index and exactly its bytes.
pub perform_all-expected :
    (steps : List Step) (w : Worker)
    → IsApplyQueue w
    → perform_all steps w ≡ expected_all steps (waiting w)
unfolding perform_all expected_all
perform_all-expected [] w v = refl
perform_all-expected (s ∷ steps) w v =
    let (e, v') = step-expected s w v in cc (e, perform_all-expected steps (perform s w).1 v')
