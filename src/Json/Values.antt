-- ===== src/Json/Values.antt =====
-- The values that json-c hands out, and the functions of it that src/pgraft_json.c calls. The text
-- of a value and the reading of a text are the library's, so they are parameters.
use pgraft.Base.{ℕ, Bool, Option, none, some, if◌then◌else◌, CString, text_eq}

-- A null is a NULL pointer. A string is read up to a terminator in it. An integer and a floating
-- point number are their 64 bits.
mutual
  pub data Json : Type 0 where
    null : Json
    boolean : Bool → Json
    double : ℕ → Json
    text : CString → Json
    number : ℕ → Json
    object : Fields → Json
    array : Items → Json

  pub data Fields : Type 0 where
    no_fields : Fields
    field : CString → Json → Fields → Fields

  pub data Items : Type 0 where
    no_items : Items
    item : Json → Items → Items

-- `json_object_to_json_string` and `json_tokener_parse`, which is NULL on a text that is no JSON.
pub record JsonC : Type 0 where
  pub print : Json → CString
  pub parse : CString → Option Json

-- `json_object_object_get_ex` on the fields of an object.
unfoldable pub get_field : CString → Fields → Option Json
get_field name no_fields = none
get_field name (field n v fs) =
    let rest = get_field name fs in if text_eq n name then some v else rest

abbrev pub fields_of : Json → Option Fields
fields_of (object fs) = some fs
fields_of _ = none

-- `json_object_get_string`: NULL for a null, and the JSON text of a value that is no string.
abbrev pub get_string : JsonC → Json → Option CString
get_string lib null = none
get_string lib (text s) = some s
get_string lib j = some (lib.print j)

abbrev pub text_of : Json → Option CString
text_of (text s) = some s
text_of _ = none

abbrev pub number_of : Json → Option ℕ
number_of (number n) = some n
number_of _ = none
