-- ===== src/Json/Operations.antt =====
-- `pgraft_json_create_kv_operation`, `pgraft_json_parse_kv_operation` and `pgraft_parse_nodes_json`
-- of src/pgraft_json.c.
use pgraft.Base.{
  ℕ, zero, suc, Option, none, some, ◌>>=◌, List, [], ◌∷◌, leb, ◌==◌, if◌then◌else◌, CString, bytes,
  text_eq, copy_text, narrow, length,
}
use pgraft.Kv.Service.{OpType}
use pgraft.Json.Values.{
  Json, text, number, object, array, Fields, no_fields, field, Items, no_items, item, JsonC,
  get_field, fields_of, text_of, number_of, get_string,
}

-- The fields behind the key.
abbrev pub last_fields : ℕ → CString → Fields
last_fields timestamp client_id =
    field (bytes "timestamp") (number timestamp)
      (field (bytes "client_id") (text client_id) no_fields)

-- The object; `none` is the error for a type that is neither. A DELETE has no value, nor has a PUT
-- with a null one.
unfoldable pub operation_object : OpType → CString → Option CString → CString → ℕ → Option Json
operation_object OpType.kv_put key none client_id timestamp = some (
    object (
      field (bytes "type") (text (bytes "kv_put"))
        (field (bytes "key") (text key) (last_fields timestamp client_id))))
operation_object OpType.kv_put key (some value) client_id timestamp = some (
    object (
      field (bytes "type") (text (bytes "kv_put")) (
        field (bytes "key") (text key)
          (field (bytes "value") (text value) (last_fields timestamp client_id)))))
operation_object OpType.kv_delete key value client_id timestamp = some (
    object (
      field (bytes "type") (text (bytes "kv_delete"))
        (field (bytes "key") (text key) (last_fields timestamp client_id))))
operation_object OpType.kv_get key value client_id timestamp = none

-- The text, if it fits the buffer with its terminator; the rest is elog(ERROR).
unfoldable pub create_kv_operation :
    JsonC → OpType → CString → Option CString → CString → ℕ → ℕ → Option CString
create_kv_operation lib op key value client_id timestamp buffer_size = do
  j ← operation_object op key value client_id timestamp
  if leb buffer_size (length (lib.print j)) then none else some (lib.print j)

-- The output arguments: the operation, the key, and the value of a PUT.
pub record Operation : Type 0 where
  pub op_type : OpType
  pub key : CString
  pub value : Option CString

-- What the reader does: it yields an operation, leaves by elog(ERROR), or passes NULL to strcmp or
-- to pstrdup, which ends the process.
pub data Parsed : Type 0 where
  parsed : Operation → Parsed
  refused crashed : Parsed

-- The copies of the value, if there is one, and of the key.
abbrev pub operation_made : OpType → Option CString → Option CString → Parsed
operation_made op none value = crashed
operation_made op (some key) value = parsed (record { op_type = op; key = key; value = value })

-- The value is copied first.
unfoldable pub with_value : JsonC → Option CString → Option Json → Parsed
with_value lib key none = refused
with_value lib key (some v) = elim (get_string lib v) [
  | none ↦ crashed
  | some value ↦ operation_made OpType.kv_put key (some value)
]

unfoldable pub operation_of : JsonC → Option CString → Option CString → Fields → Parsed
operation_of lib none key fs = crashed
operation_of lib (some type) key fs =
    if text_eq type (bytes "kv_put")
    then with_value lib key (get_field (bytes "value") fs)
    else if text_eq type (bytes "kv_delete")
    then operation_made OpType.kv_delete key none
    else refused

-- The fields of the type and of the key.
unfoldable pub read_fields : JsonC → Fields → Option Json → Option Json → Parsed
read_fields lib fs (some t) (some k) = operation_of lib (get_string lib t) (get_string lib k) fs
read_fields lib fs t k = refused

-- On a value that is no object the first look for a field fails.
unfoldable pub read_object : JsonC → Json → Parsed
read_object lib (object fs) =
    read_fields lib fs (get_field (bytes "type") fs) (get_field (bytes "key") fs)
read_object lib j = refused

-- A text that holds just `null` is read as a NULL pointer, and refused as one that is no JSON.
unfoldable pub parse_kv_operation : JsonC → CString → Parsed
parse_kv_operation lib data_text = elim (lib.parse data_text) [
  | none ↦ refused
  | some j ↦ read_object lib j
]

-- A node of the list: its 64-bit identifier, 0 where it is missing or no integer, and its address.
unfoldable pub node_of : Json → Option (ℕ × CString)
node_of j = do
  fs ← fields_of j
  a ← get_field (bytes "address") fs
  address ← text_of a
  let id : ℕ = elim (get_field (bytes "id") fs >>= number_of) [ none ↦ 0 | some n ↦ n ] in
      if id == 0 then none else some (narrow id, copy_text 255 address)

-- The loop, with the places left in the two arrays.
unfoldable pub nodes_of : ℕ → Items → List (ℕ × CString)
nodes_of zero js = []
nodes_of (suc places) no_items = []
nodes_of (suc places) (item j js) = elim (node_of j) [
  | none ↦ nodes_of (suc places) js
  | some n ↦ n ∷ nodes_of places js
]

-- `none` is -1: no text, no JSON, or no array.
unfoldable pub parse_nodes_json : JsonC → Option CString → ℕ → Option (List (ℕ × CString))
parse_nodes_json lib none max_nodes = none
parse_nodes_json lib (some s) zero = none
parse_nodes_json lib (some s) (suc n) = elim (lib.parse s) [
  | none ↦ none
  | some j ↦ elim j [ (array js) ↦ some (nodes_of (suc n) js) | _ ↦ none ]
]
