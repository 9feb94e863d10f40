-- ===== src/Json/Texts.antt =====
-- The other texts of src/pgraft_json.c: the statistics, the key list, and an entry read as SQL,
-- with `pgraft_kv_list_keys` of src/pgraft_kv.c.
use pgraft.Base.{
  ℕ, Option, none, some, ◌>>=◌, List, [], ◌∷◌, ◌++◌, leb, if◌then◌else◌, length, CString, bytes,
  copy_text, text_eq,
}
use pgraft.Kv.Store.{Store}
use pgraft.Kv.Service.{Kv, listed_keys}
use pgraft.Json.Values.{
  text, number, object, array, Fields, no_fields, field, Items, no_items, item, JsonC, get_field,
  fields_of, text_of,
}
use pgraft.Apply.Entries.{RaftEntry}

-- A text that does not fit its buffer with the terminator is elog(ERROR).
unfoldable pub fitted : ℕ → CString → Option CString
fitted buffer_size s = if leb buffer_size (length s) then none else some s

unfoldable pub create_kv_stats : JsonC → Store → ℕ → Option CString
create_kv_stats lib st buffer_size = fitted buffer_size (
    lib.print (
      object (
        field (bytes "num_entries") (number st.num_entries) (
          field (bytes "total_operations") (number st.total_operations) (
            field (bytes "last_applied_index") (number st.last_applied_index) (
              field (bytes "puts") (number st.puts) (
                field (bytes "deletes") (number st.deletes)
                  (field (bytes "gets") (number st.gets) no_fields))))))))

-- The array of the keys, in order.
unfoldable pub key_items : List CString → Items
key_items [] = no_items
key_items (k ∷ ks) = item (text k) (key_items ks)

unfoldable pub create_key_list : JsonC → Store → ℕ → Option CString
create_key_list lib st buffer_size =
    fitted buffer_size (lib.print (array (key_items (listed_keys st))))

-- The entry for a statement; the other fields of the structure are zero.
unfoldable pub sql_entry : ℕ → CString → RaftEntry
sql_entry op sql = record {
  index = 0;
  term = 0;
  op = op;
  database = bytes "postgres";
  schema = bytes "public";
  sql = copy_text 4095 sql;
}

unfoldable pub sql_of : CString → Fields → Option RaftEntry
sql_of type fs =
    if text_eq type (bytes "kv_put")
    then (do
      k ← get_field (bytes "key") fs
      v ← get_field (bytes "value") fs
      key ← text_of k
      value ← text_of v
      some (
          sql_entry 1 (
            bytes "SELECT pgraft_kv_put_local('"
            ++ (key ++ (bytes "', '" ++ (value ++ bytes "')"))))))
    else if text_eq type (bytes "kv_delete")
    then (do
      k ← get_field (bytes "key") fs
      key ← text_of k
      some (sql_entry 2 (bytes "SELECT pgraft_kv_delete_local('" ++ (key ++ bytes "')"))))
    else none

-- `pgraft_parse_kv_json_entry`; the key and the value are put between quotes as they are.
unfoldable pub parse_kv_json_entry : JsonC → CString → Option RaftEntry
parse_kv_json_entry lib data_text = do
  j ← lib.parse data_text
  fs ← fields_of j
  t ← get_field (bytes "type") fs
  type ← text_of t
  sql_of type fs

-- `pgraft_kv_list_keys`, which leaves the buffer as it was, `old`, where there is no store. The
-- fallback to an empty array stands behind the error, which leaves the function first.
unfoldable pub list_keys : JsonC → Kv → ℕ → CString → Option CString
list_keys lib k json_size old = elim k.store [
  | none ↦ some old
  | some st ↦ if leb 3 json_size then create_key_list lib st json_size else some old
]
