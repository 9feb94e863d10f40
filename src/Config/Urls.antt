-- ===== src/Config/Urls.antt =====
-- `pgraft_parse_url` and `pgraft_parse_url_list` of src/pgraft_guc.c. A null text is `none`.
use pgraft.Base.{
  ℕ, zero, suc, Bool, true, false, ◌||◌, Option, none, some, List, [], ◌∷◌, ltb, leb, ◌==◌,
  if◌then◌else◌, two31, CString, bytes, drop, skip_space, tokens, break_at, atoi,
}

-- `strncmp(s, prefix, n) == 0`, with `n` the length of the prefix.
unfoldable pub begins_with : CString → CString → Bool
begins_with [] s = true
begins_with (c ∷ prefix) [] = false
begins_with (c ∷ prefix) (b ∷ s) = let rest = begins_with prefix s in if b == c then rest else false

unfoldable pub skip_scheme : CString → CString
skip_scheme s =
    if begins_with (bytes "http://") s
    then drop 7 s
    else if begins_with (bytes "https://") s
    then drop 8 s
    else s

-- `*port <= 0 || *port > 65535`, of the 32 bits of an `int`.
unfoldable pub is_bad_port : ℕ → Bool
is_bad_port port = leb two31 port || port == 0 || ltb 65535 port

-- The host and the port; `none` is the result false.
unfoldable pub host_and_port : Option (CString × CString) → Option (CString × ℕ)
host_and_port none = none
host_and_port (some (host, rest)) = if is_bad_port (atoi rest) then none else some (host, atoi rest)

unfoldable pub parse_url : Option CString → Option (CString × ℕ)
parse_url none = none
parse_url (some []) = none
parse_url (some (c ∷ s)) = host_and_port (break_at 58 (skip_scheme (c ∷ s)))

-- The first loop over the tokens: how many are left once the space in front is skipped.
unfoldable pub count_items : List CString → ℕ
count_items [] = 0
count_items (t ∷ ts) =
    let rest = count_items ts in elim (skip_space t) [ [] ↦ rest | (c ∷ s) ↦ suc rest ]

-- The second loop, with the places left in the array.
unfoldable pub fill_items : ℕ → List CString → List CString
fill_items zero ts = []
fill_items (suc places) [] = []
fill_items (suc places) (t ∷ ts) = elim (skip_space t) [
  | [] ↦ fill_items (suc places) ts
  | (c ∷ s) ↦ (c ∷ s) ∷ fill_items places ts
]

-- `count` and `urls`; no array is made where there is nothing to hold.
unfoldable pub parse_url_list : Option CString → ℕ × List CString
parse_url_list none = (0, [])
parse_url_list (some s) = let n = count_items (tokens 44 s) in (n, fill_items n (tokens 44 s))
