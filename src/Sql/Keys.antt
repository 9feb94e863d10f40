-- ===== src/Sql/Keys.antt =====
-- The functions of src/pgraft_kv_sql.c. A NULL argument is `none`; the text of an argument that is
-- not NULL has no terminator in it.
use pgraft.Base.{
  ℕ, ◌+◌, Bool, true, false, ◌||◌, Option, none, some, List, [], ◌∷◌, leb, ◌==◌, if◌then◌else◌,
  length, CString, bytes, Status, ok, fail, raised, fault,
}
use pgraft.Core.Cluster.{Cluster}
use pgraft.Worker.State.{Worker}
use pgraft.Kv.Store.{Entry, slots}
use pgraft.Kv.Service.{OpType, Io, Kv, get, exists, compact, reset}
use pgraft.Json.Values.{JsonC}
use pgraft.Json.Operations.{create_kv_operation}
use pgraft.Apply.Entries.{until_nul}
use pgraft.Replicate.Write.{GoView, replicate_put, replicate_delete}

-- What a call returns to the client: a datum, NULL, or an error.
pub data Reply {ℓ} (A : Type ℓ) : Type ℓ where
  datum : A → Reply A
  null : Reply A
  error : Reply A

-- What a backend has for one call: what the Go library tells, the client's name made of its process
-- number, the clock of the queue, and the times of the two JSON texts.
pub record Backend : Type 0 where
  pub go_view : Option GoView
  pub client_id : CString
  pub now : ℕ
  pub first_time : ℕ
  pub second_time : ℕ

abbrev pub made : Option CString → Bool
made none = false
made (some s) = true

-- The text of the operation, which is made twice: here, and in the function that replicates.
abbrev pub is_made : JsonC → OpType → CString → Option CString → CString → ℕ → Bool
is_made lib op key value client_id timestamp =
    made (create_kv_operation lib op key value client_id timestamp 2048)

-- The call behind the first text.
unfoldable pub replicate_as :
    JsonC
    → Backend
    → OpType
    → CString
    → Option CString
    → Cluster
    → Worker
    → Status × Cluster × Worker
replicate_as lib b OpType.kv_put key value c w =
    replicate_put (is_made lib OpType.kv_put key value b.client_id b.second_time) b.go_view
      (some key) value (some b.client_id) b.now c w
replicate_as lib b OpType.kv_delete key value c w =
    replicate_delete (is_made lib OpType.kv_delete key none b.client_id b.second_time) b.go_view
      (some key) (some b.client_id) b.now c w
replicate_as lib b OpType.kv_get key value c w = (raised, c, w)

unfoldable pub replicate_kv_operation :
    JsonC
    → Backend
    → OpType
    → CString
    → Option CString
    → Cluster
    → Worker
    → Status × Cluster × Worker
replicate_kv_operation lib b op key value c w =
    if is_made lib op key value b.client_id b.first_time
    then replicate_as lib b op key value c w
    else (raised, c, w)

-- `PG_RETURN_BOOL(result == 0)`
abbrev pub reply_of : Status → Reply Bool
reply_of ok = datum true
reply_of fail = datum false
reply_of raised = error
reply_of fault = error

unfoldable pub is_in : List ℕ → ℕ → Bool
is_in [] c = false
is_in (b ∷ bs) c = b == c || is_in bs c

unfoldable pub has_any : List ℕ → CString → Bool
has_any set [] = false
has_any set (c ∷ s) = is_in set c || has_any set s

-- `strpbrk(key, "\0\r\n\t")`: the set is a C string, which ends at its first byte.
unfoldable pub has_invalid : CString → Bool
has_invalid key = has_any (until_nul (0 ∷ 13 ∷ 10 ∷ 9 ∷ [])) key

-- The tests of a key.
unfoldable pub is_bad_key : CString → Bool
is_bad_key key = length key == 0 || (leb 256 (length key) || has_invalid key)

-- In the order of the source the value is tested before the characters of the key; the result of
-- either is false.
unfoldable pub put_sql :
    JsonC
    → Backend
    → Option CString
    → Option CString
    → Cluster
    → Worker
    → Reply Bool × Cluster × Worker
put_sql lib b none value c w = (datum false, c, w)
put_sql lib b (some key) none c w = (datum false, c, w)
put_sql lib b (some key) (some value) c w =
    if is_bad_key key || leb 1024 (length value)
    then (datum false, c, w)
    else (let (s, c', w') = replicate_kv_operation lib b OpType.kv_put key (some value) c w in
        (reply_of s, c', w'))

unfoldable pub delete_sql :
    JsonC → Backend → Option CString → Cluster → Worker → Reply Bool × Cluster × Worker
delete_sql lib b none c w = (datum false, c, w)
delete_sql lib b (some key) c w =
    if is_bad_key key
    then (datum false, c, w)
    else (let (s, c', w') = replicate_kv_operation lib b OpType.kv_delete key none c w in
        (reply_of s, c', w'))

-- `result == 0` and the buffer.
unfoldable pub text_reply : Status × Option (CString × ℕ) → Reply CString
text_reply (ok, some (value, version)) = datum value
text_reply (ok, none) = datum []
text_reply (fail, out) = null
text_reply (raised, out) = error
text_reply (fault, out) = error

unfoldable pub get_sql : Option CString → Kv → Reply CString × Kv
get_sql none k = (null, k)
get_sql (some key) k =
    if length key == 0
    then (null, k)
    else (let (s, out, k') = get (some key) 1024 k in (text_reply (s, out), k'))

unfoldable pub exists_sql : Option CString → Kv → Bool
exists_sql none k = false
exists_sql (some key) k =
    let found = exists (some key) k in if length key == 0 then false else found

-- The loop of the statistics: the active and the deleted entries.
unfoldable pub count_entries : List Entry → ℕ × ℕ
count_entries [] = (0, 0)
count_entries (e ∷ es) =
    let (active_entries, deleted_entries) = count_entries es in
    if e.deleted
    then (active_entries, deleted_entries + 1)
    else (active_entries + 1, deleted_entries)

-- The row, `none` for the error where there is no store.
unfoldable pub get_stats_table : Kv → Option (List ℕ)
get_stats_table k = elim k.store [
  | none ↦ none
  | some st ↦
      let (active_entries, deleted_entries) = count_entries (slots st) in
      some (
        st.num_entries ∷ st.total_operations ∷ st.last_applied_index ∷ st.puts ∷ st.deletes
        ∷ st.gets ∷ active_entries ∷ deleted_entries ∷ [])
]

unfoldable pub compact_sql : Io → Kv → Reply CString × Kv
compact_sql io k = (datum (bytes "Key/value store compacted successfully"), compact io k)

unfoldable pub reset_sql : Io → Kv → Reply CString × Kv
reset_sql io k = (datum (bytes "Key/value store reset successfully"), reset io k)
