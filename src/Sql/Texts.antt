-- ===== src/Sql/Texts.antt =====
-- The functions of src/pgraft_kv_sql.c that return JSON.
use pgraft.Base.{Option, none, some, CString}
use pgraft.Kv.Service.{Kv}
use pgraft.Json.Values.{JsonC}
use pgraft.Json.Texts.{create_kv_stats, list_keys}
use pgraft.Sql.Keys.{Reply, datum, error}

abbrev pub text_or_error : Option CString → Reply CString
text_or_error none = error
text_or_error (some s) = datum s

-- `old` is what the uninitialised buffer holds.
unfoldable pub list_keys_sql : JsonC → CString → Kv → Reply CString
list_keys_sql lib old k = text_or_error (list_keys lib k 8192 old)

unfoldable pub stats_sql : JsonC → Kv → Reply CString
stats_sql lib k = elim k.store [
  | none ↦ error
  | some st ↦ text_or_error (create_kv_stats lib st 2048)
]
