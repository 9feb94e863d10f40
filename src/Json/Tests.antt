-- ===== src/Json/Tests.antt =====
-- Runs of the functions of src/pgraft_json.c with a library that knows one object.
use pgraft.Base.{◌≡◌, refl, none, some, if◌then◌else◌, CString, bytes, text_eq}
use pgraft.Kv.Service.{OpType}
use pgraft.Json.Values.{Json, JsonC, text, object, field}
use pgraft.Json.Operations.{
  last_fields, operation_object, create_kv_operation, parsed, parse_kv_operation,
}
use pgraft.Json.Entries.{parse-create}

abbrev put_text : CString
put_text =
    bytes
      "{ \"type\": \"kv_put\", \"key\": \"a\", \"value\": \"b\", \"timestamp\": 7, \"client_id\": \"c\" }"

abbrev put_json : Json
put_json = object (
    field (bytes "type") (text (bytes "kv_put")) (
      field (bytes "key") (text (bytes "a"))
        (field (bytes "value") (text (bytes "b")) (last_fields 7 (bytes "c")))))

abbrev one_object : JsonC
one_object = record {
  print = λ j. put_text;
  parse = λ s. if text_eq s put_text then some put_json else none;
}

parse-create_example :
    parse_kv_operation one_object put_text
    ≡ parsed (record { op_type = OpType.kv_put; key = bytes "a"; value = some (bytes "b") })
unfolding create_kv_operation operation_object text_eq
parse-create_example =
    parse-create one_object OpType.kv_put (bytes "a") (some (bytes "b")) (bytes "c") 7 2048
      (λ j made. made) put_text refl
