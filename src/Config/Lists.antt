-- ===== src/Config/Lists.antt =====
-- `pgraft_parse_url_list` of src/pgraft_guc.c against one pass over the tokens, and
-- `pgraft_parse_url` on the URLs that it expects.
use pgraft.Base.{
  ℕ, zero, suc, ◌≤◌, ◌≡◌, ◌∙◌, refl, ap, Bool, true, false, some, List, [], ◌∷◌, ◌++◌, length, map,
  filter, text_cases, inl, inr, if◌then◌else◌, CString, bytes, skip_space, tokens, break_at-first,
  Lacks, decimal, atoi-decimal, arith,
}
use pgraft.Config.Urls.{
  begins_with, skip_scheme, is_bad_port, host_and_port, parse_url, count_items, fill_items,
  parse_url_list,
}

abbrev pub is_some_text : CString → Bool
is_some_text [] = false
is_some_text (c ∷ s) = true

-- The items of a list: the tokens without the space in front, but the empty ones.
abbrev pub items : CString → List CString
items s = filter is_some_text (map skip_space (tokens 44 s))

count_items-filter :
    (ts : List CString) → count_items ts ≡ length (filter is_some_text (map skip_space ts))
unfolding count_items filter
count_items-filter [] = refl
count_items-filter (t ∷ ts) = elim (text_cases (skip_space t)) [
  | inl blank ↦ rw (blank, count_items) (count_items-filter ts)
  | inr (c, u, item) ↦ rw (item, count_items) (ap suc (count_items-filter ts))
]

fill_items_blank :
    (n : ℕ) (t : CString) (ts : List CString)
    → skip_space t ≡ []
    → fill_items n (t ∷ ts) ≡ fill_items n ts
unfolding fill_items
fill_items_blank zero t ts h = refl
fill_items_blank (suc n) t ts h = rw (fill_items, h)

fill_items_item :
    (n : ℕ) (t : CString) (ts : List CString) {c : ℕ} {u : CString}
    → skip_space t ≡ c ∷ u
    → fill_items (suc n) (t ∷ ts) ≡ (c ∷ u) ∷ fill_items n ts
unfolding fill_items
fill_items_item n t ts h = rw (fill_items, h)

fill_items-filter :
    (ts : List CString) → fill_items (count_items ts) ts ≡ filter is_some_text (map skip_space ts)
unfolding count_items fill_items filter
fill_items-filter [] = refl
fill_items-filter (t ∷ ts) = elim (text_cases (skip_space t)) [
  | inl blank ↦
      rw (blank, count_items) (fill_items_blank (count_items ts) t ts blank ∙ fill_items-filter ts)
  | inr (c, u, item) ↦
      rw (item, count_items)
        (fill_items_item (count_items ts) t ts item ∙ ap (λ l. (c ∷ u) ∷ l) (fill_items-filter ts))
]

-- A list of URLs is the items between the commas, and its count is theirs.
pub parse_url_list-items : (s : CString) → parse_url_list (some s) ≡ (length (items s), items s)
unfolding parse_url_list
parse_url_list-items s =
    ap (λ n. (n, fill_items (count_items (tokens 44 s)) (tokens 44 s)))
      (count_items-filter (tokens 44 s))
    ∙ ap (λ l. (length (items s), l)) (fill_items-filter (tokens 44 s))

-- The text of a URL with a scheme, a host and a port.
unfoldable pub url_text : Bool → CString → ℕ → CString
url_text secure host port =
    (if secure then bytes "https://" else bytes "http://") ++ (host ++ (58 ∷ decimal port))

-- A URL with a scheme, a host without a colon and a port from 1 to 65535 is parsed into that host
-- and that port.
pub parse_url-text :
    (secure : Bool) (host : CString) (port : ℕ)
    → Lacks 58 host
    → 1 ≤ port
    → port ≤ 65535
    → parse_url (some (url_text secure host port)) ≡ some (host, port)
unfolding parse_url url_text skip_scheme begins_with host_and_port is_bad_port
parse_url-text true host port h p q =
    rw (break_at-first 58 host (decimal port) h, host_and_port, atoi-decimal port (omega arith))
      (ground arith)
parse_url-text false host port h p q =
    rw (break_at-first 58 host (decimal port) h, host_and_port, atoi-decimal port (omega arith))
      (ground arith)
