-- ===== src/Apply/Entries.antt =====
-- `PgRaftLogEntry` of include/pgraft_apply.h, and its text: `pgraft_parse_log_entry` and
-- `pgraft_serialize_log_entry` of src/pgraft_apply.c.
use pgraft.Base.{
  ℕ, Option, none, some, List, [], ◌∷◌, ◌==◌, if◌then◌else◌, take, get_or, length, CString,
  copy_text, tokens, join, decimal, decimal32, strtoull, atoi,
}

-- The operation is the 32 bits of an enumeration; no code checks that they name a member.
pub record RaftEntry : Type 0 where
  pub index : ℕ
  pub term : ℕ
  pub op : ℕ
  pub database : CString
  pub schema : CString
  pub sql : CString

-- The character `|`.
abbrev pub bar : ℕ
bar = 124

-- The character `{`.
abbrev pub brace : ℕ
brace = 123

-- The string that stands at the front of some bytes.
unfoldable pub until_nul : List ℕ → CString
until_nul [] = []
until_nul (c ∷ s) = let rest = until_nul s in if c == 0 then [] else c ∷ rest

-- The six fields; a seventh token is not looked at.
unfoldable pub entry_of : List CString → Option RaftEntry
entry_of (i ∷ t ∷ o ∷ d ∷ s ∷ q ∷ more) = some (record {
  index = strtoull i;
  term = strtoull t;
  op = atoi o;
  database = copy_text 63 d;
  schema = copy_text 63 s;
  sql = copy_text 4095 q;
})
entry_of _ = none

-- `none` for the pointer is NULL, and `none` as the result too. The caller's bytes are copied and
-- closed with a terminator. `pgraft_json_parse_log_entry` of src/pgraft_json.c, which gets the text
-- that begins with a brace, only returns NULL.
unfoldable pub parse_log_entry : Option (List ℕ) → ℕ → Option RaftEntry
parse_log_entry none len = none
parse_log_entry (some payload) len =
    if len == 0
    then none
    else if get_or payload 0 0 == brace
    then none
    else entry_of (tokens bar (until_nul (take len payload)))

-- What snprintf would write to a buffer without an end.
unfoldable pub entry_text : RaftEntry → CString
entry_text e =
    join bar
      (decimal e.index ∷ decimal e.term ∷ decimal32 e.op ∷ e.database ∷ e.schema ∷ e.sql ∷ [])

-- The buffer and `*out_len`, which is snprintf's result: the length without the cut.
unfoldable pub serialize_log_entry : Option RaftEntry → Option CString × ℕ
serialize_log_entry none = (none, 0)
serialize_log_entry (some e) = (some (copy_text 8191 (entry_text e)), length (entry_text e))
