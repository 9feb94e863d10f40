-- ===== src/Config/Members.antt =====
-- `pgraft_parse_initial_cluster` and `pgraft_validate_configuration` of src/pgraft_guc.c.
use pgraft.Base.{
  ℕ, zero, suc, Bool, true, false, not, ◌&&◌, ◌||◌, Option, none, some, ◌>>=◌, List, [], ◌∷◌, leb,
  if◌then◌else◌, lt32, CString, bytes, text_eq, skip_space, tokens, break_at, Status, ok, raised,
}
use pgraft.Config.Urls.{begins_with, count_items}

-- `pgraft_cluster_member_t`.
pub record Member : Type 0 where
  pub name : CString
  pub peer_url : CString

-- The loop that fills the array, with the places left; `none` is elog(ERROR) for a member without
-- an equals sign, which leaves the caller too.
unfoldable pub read_members : ℕ → List CString → Option (List Member)
read_members zero ts = some []
read_members (suc places) [] = some []
read_members (suc places) (t ∷ ts) = elim (skip_space t) [
  | [] ↦ read_members (suc places) ts
  | (c ∷ s) ↦ elim (break_at 61 (c ∷ s)) [
    | none ↦ none
    | some (name, url) ↦ do
      rest ← read_members places ts
      some (record { name = skip_space name; peer_url = skip_space url } ∷ rest)
  ]
]

unfoldable pub parsed : ℕ → Option (List Member) → Status × ℕ × List Member
parsed n none = (raised, 0, [])
parsed n (some members) = (ok, n, members)

-- The result, `*count` and `*members`. The early returns leave 0 and no array.
unfoldable pub parse_initial_cluster : Option CString → Status × ℕ × List Member
parse_initial_cluster none = (ok, 0, [])
parse_initial_cluster (some s) =
    let n = count_items (tokens 44 s) in parsed n (read_members n (tokens 44 s))

-- `strstr(s, part) != NULL`
unfoldable pub contains : CString → CString → Bool
contains part [] = begins_with part []
contains part (c ∷ s) = begins_with part (c ∷ s) || contains part s

-- `strlen(s) == 0`, or NULL.
unfoldable pub is_unset : Option CString → Bool
is_unset none = true
is_unset (some []) = true
is_unset (some (c ∷ s)) = false

-- The test of one member's two parts.
unfoldable pub is_valid_member : CString → CString → Bool
is_valid_member [] url = false
is_valid_member (c ∷ name) url = contains (bytes "http://") url || contains (bytes "https://") url

-- The loop of the validation: the number of members, or `none` for elog(ERROR).
unfoldable pub check_members : List CString → Option ℕ
check_members [] = some 0
check_members (t ∷ ts) = elim (skip_space t) [
  | [] ↦ check_members ts
  | (c ∷ s) ↦ elim (break_at 61 (c ∷ s)) [
    | none ↦ none
    | some (name, url) ↦ do
      count ← check_members ts
      if is_valid_member name url then some (suc count) else none
  ]
]

-- The variables that the validation reads. An `int` is its 32 bits.
pub record GucVars : Type 0 where
  pub initial_cluster_token : Option CString
  pub listen_peer_urls : Option CString
  pub initial_cluster : Option CString
  pub initial_cluster_state : Option CString
  pub heartbeat_interval : ℕ
  pub election_timeout : ℕ
  pub snapshot_count : ℕ
  pub max_log_entries : ℕ

unfoldable pub has_members : Option CString → Bool
has_members none = false
has_members (some []) = false
has_members (some (c ∷ s)) = elim (check_members (tokens 44 (c ∷ s))) [
  | none ↦ false
  | some n ↦ leb 1 n
]

unfoldable pub is_known_state : Option CString → Bool
is_known_state none = true
is_known_state (some []) = true
is_known_state (some (c ∷ s)) = text_eq (c ∷ s) (bytes "new") || text_eq (c ∷ s) (bytes "existing")

-- `low <= x && x <= high`, signed.
abbrev pub within32 : ℕ → ℕ → ℕ → Bool
within32 low high x = not (lt32 x low) && not (lt32 high x)

-- The tests in their order. The warning on an election timeout below five heartbeats only logs.
unfoldable pub validate_configuration : GucVars → Status
validate_configuration g =
    if is_unset g.initial_cluster_token
    then raised
    else if is_unset g.listen_peer_urls
    then raised
    else if not (has_members g.initial_cluster)
    then raised
    else if not (is_known_state g.initial_cluster_state)
    then raised
    else if not (within32 10 10000 g.heartbeat_interval)
    then raised
    else if not (within32 100 30000 g.election_timeout)
    then raised
    else if not (within32 100 1000000 g.snapshot_count)
    then raised
    else if not (within32 100 1000000 g.max_log_entries)
    then raised
    else ok
