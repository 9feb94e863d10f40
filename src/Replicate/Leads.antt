-- ===== src/Replicate/Leads.antt =====
-- When a write on its way into Raft is taken into the queue of src/pgraft_util.c.
use pgraft.Base.{
  ℕ, ◌≡◌, ◌∙◌, refl, ap, inl, inr, Bool, true, false, ◌&&◌, Option, none, some, List, [], ◌∷◌, ◌++◌,
  ◌==◌, if◌then◌else◌, length, ltb, lt64, widen, narrow, CString, Status, ok, raised, Bool-cases,
}
use pgraft.Core.Cluster.{Cluster, init_cluster_memory}
use pgraft.Worker.State.{Worker, max_commands, kv_put, pending}
use pgraft.Worker.Queue.{field_text, queue_kv_command, kv_command}
use pgraft.Worker.Fifo.{
  Message, kv_message, queued, IsQueue, Reply, accepted, submitted, offer, message, read_as,
}
use pgraft.Worker.Refine.{enqueue-offer}
use pgraft.Kv.Service.{OpType}
use pgraft.Replicate.Write.{
  GoView, update_from_go, queued_or_raised, queue_as, queue_operation, replicate_put,
}

-- The message of a PUT in the queue.
abbrev pub put_message : CString → CString → Option CString → ℕ → Message
put_message key value client_id now =
    kv_message kv_put (field_text 256 (some key)) (field_text 1024 (some value))
      (field_text 64 client_id) pending now

abbrev status_of : Reply → Status
status_of accepted = ok
status_of _ = raised

queued_or_raised-submitted :
    (c : Cluster) (r : Bool × Worker)
    → ((queued_or_raised c r).0 ≡ status_of (submitted r).0)
      × ((queued_or_raised c r).2 ≡ (submitted r).1)
unfolding queued_or_raised submitted
queued_or_raised-submitted c (true, w) = (refl, refl)
queued_or_raised-submitted c (false, w) = (refl, refl)

status-offer :
    (m : Message) (queue : List Message)
    → (status_of (offer m queue).0 ≡ (if ltb (length queue) max_commands then ok else raised))
      × ((offer m queue).1 ≡ (if ltb (length queue) max_commands then queue ++ (m ∷ []) else queue))
status-offer m queue = elim (Bool-cases (ltb (length queue) max_commands)) [
  | inl room ↦ rw room (refl, refl)
  | inr full ↦ rw full (refl, refl)
]

-- A PUT past the test of the leader.
put-offer :
    (key value : CString) (client_id : Option CString) (now : ℕ) (c : Cluster) (w : Worker)
    → IsQueue w
    → ((queue_as OpType.kv_put (some key) (some value) client_id now c w).0
        ≡ (if ltb (length (queued w)) max_commands then ok else raised))
      × (queued (queue_as OpType.kv_put (some key) (some value) client_id now c w).2 ≡ (
          if ltb (length (queued w)) max_commands
          then queued w ++ (put_message key value client_id now ∷ [])
          else queued w))
unfolding queue_as queue_kv_command kv_command message read_as
put-offer key value client_id now c w v =
    let m : Message = put_message key value client_id now in
    let e =
      (enqueue-offer (kv_command kv_put (some key) (some value) client_id now) m w v refl).0 in
    let s =
      queued_or_raised-submitted c
        (queue_kv_command kv_put (some key) (some value) client_id now w) in
    let o = status-offer m (queued w) in
    (
      s.0 ∙ ap (λ (x : Reply × List Message). status_of x.0) e ∙ o.0,
      ap queued s.1 ∙ ap (λ (x : Reply × List Message). x.1) e ∙ o.1,
    )

-- With the Go library loaded and naming this node, a PUT whose text fits is accepted exactly when
-- the library's leader is this node, by the identifier cut to 32 bits, and fewer than 100 commands
-- wait; then it is the last in the queue, and otherwise an error is raised and the queue is as it was.
pub replicate_put-leads :
    (g : GoView) (key value : CString) (client_id : Option CString) (now : ℕ) (c : Cluster)
    (w : Worker)
    → IsQueue w
    → lt64 0 g.go_node_id ≡ true
    → ((replicate_put true (some g) (some key) (some value) client_id now c w).0 ≡ (
        if (widen (narrow g.go_node_id) == g.leader) && ltb (length (queued w)) max_commands
        then ok
        else raised))
      × (queued (replicate_put true (some g) (some key) (some value) client_id now c w).2 ≡ (
          if (widen (narrow g.go_node_id) == g.leader) && ltb (length (queued w)) max_commands
          then queued w ++ (put_message key value client_id now ∷ [])
          else queued w))
unfolding replicate_put queue_operation update_from_go
replicate_put-leads g key value client_id now c w v named =
    rw named (elim (Bool-cases (widen (narrow g.go_node_id) == g.leader)) [
      | inl leads ↦ rw leads (
          put-offer key value client_id now _ _ (record {
            positive = v.positive;
            sized = v.sized;
            head_in = v.head_in;
            bounded = v.bounded;
            tail_at = v.tail_at;
          }))
      | inr follows ↦ rw follows (refl, refl)
    ])

-- On new shared memory, where no node is initialised, and with the Go library not loaded, a PUT
-- whose text fits is accepted while fewer than 100 commands wait.
pub replicate_put_uninitialised :
    (key value : CString) (client_id : Option CString) (now : ℕ) (w : Worker)
    → IsQueue w
    → (replicate_put true none (some key) (some value) client_id now (init_cluster_memory none) w).0
      ≡ (if ltb (length (queued w)) max_commands then ok else raised)
unfolding replicate_put queue_operation update_from_go init_cluster_memory
replicate_put_uninitialised key value client_id now w v =
    (put-offer key value client_id now _ w v).0
