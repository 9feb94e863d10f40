-- ===== src/Apply/Tests.antt =====
-- Entries applied to a server that holds one key.
use pgraft.Base.{
  ℕ, suc, ◌≡◌, refl, true, none, some, [], ◌∷◌, ◌++◌, length, CString, bytes, text_eq, find, Status,
  ok, if◌then◌else◌, arith,
}
use pgraft.Kv.Store.{zeroed, is_match}
use pgraft.Kv.View.{view, next_version}
use pgraft.Kv.Put.{put_accepts}
use pgraft.Kv.Run.{zeroed-IsSound}
use pgraft.Kv.Service.{OpType, Io, absent, get}
use pgraft.Kv.Client.{server, answer, buffer_size}
use pgraft.Json.Values.{Json, JsonC, text, object, field, get_field}
use pgraft.Json.Operations.{
  last_fields, operation_object, create_kv_operation, Operation, parsed, operation_of, read_fields,
  read_object, parse_kv_operation,
}
use pgraft.Worker.State.{fresh_worker}
use pgraft.Apply.Entries.{RaftEntry, parse_log_entry, entry_text, serialize_log_entry}
use pgraft.Apply.RoundTrip.{IsPlain, parse-serialize}
use pgraft.Apply.Operations.{
  Spi, Server, apply_kv_operation, apply_entry_to_postgres, get_applied_index,
}
use pgraft.Apply.Stores.{kv_accepts, bound_after, Effect, apply-Effect}
use pgraft.Apply.Replayed.{get-applied}

abbrev insertion : RaftEntry
insertion = record {
  index = 12;
  term = 3;
  op = 4_294_967_295;
  database = bytes "d";
  schema = bytes "s";
  sql = bytes "go";
}

insertion-IsPlain : IsPlain insertion
insertion-IsPlain = record {
  index_word = omega arith;
  term_word = omega arith;
  op_word = omega arith;
  database_field = record {
    some_text = cc;
    no_bar = (refl, tt);
    no_nul = (refl, tt);
    short = omega arith;
  };
  schema_field = record {
    some_text = cc;
    no_bar = (refl, tt);
    no_nul = (refl, tt);
    short = omega arith;
  };
  sql_field = record {
    some_text = cc;
    no_bar = (refl, (refl, tt));
    no_nul = (refl, (refl, tt));
    short = omega arith;
  };
}

parse-serialize_example :
    (parse_log_entry
        (serialize_log_entry (some insertion)).0
        (serialize_log_entry (some insertion)).1
      ≡ some insertion)
    × ((serialize_log_entry (some insertion)).0 ≡ some (entry_text insertion))
    × ((serialize_log_entry (some insertion)).1 ≡ length (entry_text insertion))
parse-serialize_example = parse-serialize insertion insertion-IsPlain

abbrev io : Io
io = record { now = 9; opens = true; transfers = true; unlinks = true }

-- A database that counts the statements.
abbrev counter : Spi ℕ
counter = record {
  connects = true;
  execute = λ sql v. (ok, record v { database = suc v.database });
}

abbrev put_text : CString
put_text = bytes "{1}"

abbrev delete_text : CString
delete_text = bytes "{2}"

abbrev put_json : Json
put_json = object (
    field (bytes "type") (text (bytes "kv_put")) (
      field (bytes "key") (text (bytes "a"))
        (field (bytes "value") (text (bytes "b")) (last_fields 7 (bytes "c")))))

abbrev delete_json : Json
delete_json = object (
    field (bytes "type") (text (bytes "kv_delete"))
      (field (bytes "key") (text (bytes "a")) (last_fields 7 (bytes "c"))))

-- A library that knows two objects.
abbrev two_objects : JsonC
two_objects = record {
  print = λ j. put_text;
  parse = λ s.
      if text_eq s put_text
      then some put_json
      else if text_eq s delete_text
      then some delete_json
      else none;
}

abbrev blank_server : Server ℕ
blank_server = record { kv = server zeroed absent; worker = fresh_worker; database = 0 }

abbrev deletion : Operation
deletion = record { op_type = OpType.kv_delete; key = bytes "a"; value = none }

deletion_read : parse_kv_operation two_objects delete_text ≡ parsed deletion
unfolding parse_kv_operation get_field read_object read_fields operation_of text_eq
deletion_read = refl

apply-Effect_example :
    Effect
      (kv_accepts deletion zeroed OpType.kv_delete)
      (bound_after deletion zeroed)
      (apply_kv_operation two_objects io delete_text (server zeroed absent))
apply-Effect_example =
    apply-Effect two_objects io delete_text deletion zeroed absent zeroed-IsSound.valid
      deletion_read

zeroed-accepts : put_accepts (bytes "a") (bytes "b") zeroed ≡ true
unfolding find is_match text_eq
zeroed-accepts = refl

put_created :
    create_kv_operation two_objects OpType.kv_put (bytes "a") (some (bytes "b")) (bytes "c") 7 2048
    ≡ some put_text
unfolding create_kv_operation operation_object
put_created = refl

put_read :
    (j : Json)
    → operation_object OpType.kv_put (bytes "a") (some (bytes "b")) (bytes "c") 7 ≡ some j
    → two_objects.parse (two_objects.print j) ≡ some j
unfolding operation_object text_eq
put_read j made = made

abbrev put_applied : Status × Server ℕ
put_applied =
    apply_entry_to_postgres two_objects io counter 8 (put_text ++ (0 ∷ [])) (length put_text)
      blank_server

get-applied_example :
    (put_applied.0 ≡ ok)
    × (answer (get (some (bytes "a")) buffer_size put_applied.1.kv)
        ≡ (ok, some (bytes "b", next_version (view zeroed (bytes "a")))))
    × (get_applied_index put_applied.1.worker ≡ 8)
get-applied_example =
    get-applied two_objects io counter (bytes "a") (bytes "b") (bytes "c") 7 2048 8 zeroed absent
      fresh_worker 0 put_text [] zeroed-IsSound.valid zeroed-accepts put_created put_read refl
      (refl, (refl, (refl, tt)))
