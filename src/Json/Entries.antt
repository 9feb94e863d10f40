-- ===== src/Json/Entries.antt =====
-- The operations of src/pgraft_json.c through the library's text and back.
use pgraft.Base.{
  ℕ, ◌≡◌, refl, ap, sym, ◌∙◌, inl, inr, Option, none, some, ◌>>=◌, leb, length, if◌then◌else◌,
  Bool-cases, CString, text_eq,
}
use pgraft.Kv.Service.{OpType}
use pgraft.Json.Values.{Json, JsonC, get_field}
use pgraft.Json.Operations.{
  operation_object, create_kv_operation, Parsed, parsed, refused, with_value, operation_of,
  read_fields, read_object, parse_kv_operation,
}

-- What the reader makes of what the writer made, if it made something.
abbrev pub read_made : JsonC → Option Json → Parsed
read_made lib none = refused
read_made lib (some j) = read_object lib j

-- The operation that was asked for. A PUT without a value is written without it, and so cannot be
-- read, and a GET is not written.
abbrev pub meant : OpType → CString → Option CString → Parsed
meant OpType.kv_put key none = refused
meant OpType.kv_put key (some value) =
    parsed (record { op_type = OpType.kv_put; key = key; value = some value })
meant OpType.kv_delete key value =
    parsed (record { op_type = OpType.kv_delete; key = key; value = none })
meant OpType.kv_get key value = refused

read-operation_object :
    (lib : JsonC) (op : OpType) (key : CString) (value : Option CString) (client_id : CString)
    (timestamp : ℕ)
    → read_made lib (operation_object op key value client_id timestamp) ≡ meant op key value
unfolding operation_object get_field read_object read_fields operation_of with_value text_eq
read-operation_object lib OpType.kv_put key none client_id timestamp = refl
read-operation_object lib OpType.kv_put key (some value) client_id timestamp = refl
read-operation_object lib OpType.kv_delete key value client_id timestamp = refl
read-operation_object lib OpType.kv_get key value client_id timestamp = refl

parse-made :
    (lib : JsonC) (s : CString) (j : Json)
    → lib.parse s ≡ some j
    → parse_kv_operation lib s ≡ read_object lib j
unfolding parse_kv_operation
parse-made lib s j h = rw (parse_kv_operation, h) refl

module _ (lib : JsonC) (op : OpType) (key : CString) (value : Option CString) (client_id : CString)
    (timestamp buffer_size : ℕ) where
  fits_text :
      (o : Option Json) (s : CString)
      → (do j ← o; if leb buffer_size (length (lib.print j)) then none else some (lib.print j))
        ≡ some s
      → (j : Json) × (o ≡ some j) × (lib.print j ≡ s)
  fits_text none s h = cc
  fits_text (some j) s h = elim (Bool-cases (leb buffer_size (length (lib.print j)))) [
    | inl long ↦ cc (h, long)
    | inr fits ↦ (j, refl, cc (h, ap (λ b. if b then none else some (lib.print j)) fits))
  ]

  -- What is written as JSON is read as the operation that was meant: the same type and key, and
  -- the same value for a PUT. It is so where the library reads its own text of the object that was
  -- written.
  pub parse-create :
      ((j : Json)
        → operation_object op key value client_id timestamp ≡ some j
        → lib.parse (lib.print j) ≡ some j)
      → (s : CString)
      → create_kv_operation lib op key value client_id timestamp buffer_size ≡ some s
      → parse_kv_operation lib s ≡ meant op key value
  unfolding create_kv_operation
  parse-create reads s h =
      let (j, made, printed) = fits_text (operation_object op key value client_id timestamp) s h in
      parse-made lib s j (ap lib.parse (sym printed) ∙ reads j made)
      ∙ ap (read_made lib) (sym made)
      ∙ read-operation_object lib op key value client_id timestamp
