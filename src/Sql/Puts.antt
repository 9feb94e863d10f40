-- ===== src/Sql/Puts.antt =====
-- A PUT by SQL, src/pgraft_kv_sql.c, up to the worker's queue.
use pgraft.Base.{
  ℕ, ◌≤◌, ◌≡◌, ◌∙◌, refl, ap, inl, inr, Bool, true, false, not, ◌&&◌, ◌||◌, some, [], ◌∷◌, ◌++◌,
  ◌==◌, leb, ltb, if◌then◌else◌, Bool-cases, length, lt64, widen, narrow, take-all, CString, ok,
  raised, arith,
}
use pgraft.Core.Cluster.{Cluster}
use pgraft.Worker.State.{Worker, kv_put, pending, max_commands}
use pgraft.Worker.Queue.{field_text}
use pgraft.Worker.Fifo.{Message, kv_message, queued, IsQueue}
use pgraft.Kv.Service.{OpType}
use pgraft.Json.Values.{JsonC}
use pgraft.Apply.Entries.{until_nul}
use pgraft.Replicate.Write.{GoView}
use pgraft.Replicate.Leads.{replicate_put-leads}
use pgraft.Sql.Keys.{
  Reply, datum, error, Backend, is_made, replicate_as, replicate_kv_operation, reply_of, is_in,
  has_any, has_invalid, is_bad_key, put_sql,
}

has_any-nil : (key : CString) → has_any [] key ≡ false
unfolding has_any is_in
has_any-nil [] = refl
has_any-nil (c ∷ key) = has_any-nil key

-- The set of characters that the function looks for ends before its first one.
has_invalid-never : (key : CString) → has_invalid key ≡ false
unfolding has_invalid until_nul
has_invalid-never key = has_any-nil key

-- A key and a value that the function lets through.
abbrev pub acceptable : CString → CString → Bool
acceptable key value = ltb 0 (length key) && (ltb (length key) 256 && ltb (length value) 1024)

bad_unless-acceptable :
    (key value : CString) → (is_bad_key key || leb 1024 (length value)) ≡ not (acceptable key value)
unfolding is_bad_key
bad_unless-acceptable key value = rw (is_bad_key, has_invalid-never key) (ground arith)

short_parts :
    (key value : CString) → acceptable key value ≡ true → (length key ≤ 255) × (length value ≤ 1023)
short_parts key value h = ground (arith, h)

-- A backend whose Go library answers.
abbrev pub backend : GoView → CString → ℕ → ℕ → ℕ → Backend
backend g client_id now first second = record {
  go_view = some g;
  client_id = client_id;
  now = now;
  first_time = first;
  second_time = second;
}

-- This node leads, and a place is left.
abbrev pub leads_with_room : GoView → Worker → Bool
leads_with_room g w =
    (widen (narrow g.go_node_id) == g.leader) && ltb (length (queued w)) max_commands

-- The message with the whole key and the whole value.
abbrev pub whole_message : CString → CString → CString → ℕ → Message
whole_message client_id key value now =
    kv_message kv_put key value (field_text 64 (some client_id)) pending now

reply-if : (b : Bool) → reply_of (if b then ok else raised) ≡ (if b then datum true else error)
reply-if true = refl
reply-if false = refl

module _ (lib : JsonC) (g : GoView) (client_id key value : CString) (now first second : ℕ)
    (c : Cluster) (w : Worker) where
  abbrev called : Reply Bool × Cluster × Worker
  called = put_sql lib (backend g client_id now first second) (some key) (some value) c w

  module _ (v : IsQueue w) (named : lt64 0 g.go_node_id ≡ true)
      (first_made : is_made lib OpType.kv_put key (some value) client_id first ≡ true)
      (second_made : is_made lib OpType.kv_put key (some value) client_id second ≡ true) where
    -- A PUT by SQL with a key and a value that are not NULL, on a backend whose Go library names this node
    -- and where both JSON texts of the operation fit, returns false and queues nothing where the key is empty
    -- or has more than 255 characters or the value has more than 1023. Else it returns true exactly when this
    -- node leads, by the identifier cut to 32 bits, and fewer than 100 commands wait; then the whole key and
    -- the whole value are last in the queue. In the other cases it raises an error and queues nothing.
    pub put_sql-queued :
        (called.0 ≡ (
          if acceptable key value
          then if leads_with_room g w then datum true else error
          else datum false))
        × (queued called.2 ≡ (
            if acceptable key value && leads_with_room g w
            then queued w ++ (whole_message client_id key value now ∷ [])
            else queued w))
    unfolding put_sql replicate_kv_operation replicate_as
    put_sql-queued = elim (Bool-cases (acceptable key value)) [
      | inr refused ↦ rw (put_sql, bad_unless-acceptable key value, refused) (refl, refl)
      | inl taken ↦
          let (s, q) = replicate_put-leads g key value (some client_id) now c w v named in
          let (k, x) = short_parts key value taken in
          rw (put_sql, bad_unless-acceptable key value, taken, first_made, second_made)
            (
              ap reply_of s ∙ reply-if (leads_with_room g w),
              q ∙ rw (take-all 255 key k, take-all 1023 value x) refl,
            )
    ]
