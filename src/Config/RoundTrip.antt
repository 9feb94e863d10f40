-- ===== src/Config/RoundTrip.antt =====
-- `pgraft_parse_initial_cluster` of src/pgraft_guc.c on the texts that it expects.
use pgraft.Base.{
  ℕ, suc, ◌≡◌, ◌≢◌, refl, ap, false, some, List, [], ◌∷◌, ◌++◌, length, map, is_space, CString,
  skip_space, join, tokens-join, AllTokens, break_at, break_at-first, Lacks, ok,
}
use pgraft.Config.Urls.{count_items}
use pgraft.Config.Members.{Member, read_members, parsed, parse_initial_cluster}

-- What a member of the list may be: a name that is not empty and has no comma and no equals sign,
-- a URL without a comma, and neither begins with space.
abbrev pub BeginsInk : CString → Type 0
BeginsInk [] = Unit
BeginsInk (c ∷ s) = is_space c ≡ false

pub record IsPlain (m : Member) : Type 0 where
  pub named : m.name ≢ []
  pub name_ink : BeginsInk m.name
  pub name_comma : Lacks 44 m.name
  pub name_equals : Lacks 61 m.name
  pub url_ink : BeginsInk m.peer_url
  pub url_comma : Lacks 44 m.peer_url

abbrev pub AllPlain : List Member → Type 0
AllPlain [] = Unit
AllPlain (m ∷ ms) = IsPlain m × AllPlain ms

-- A member as the configuration writes it, and all of them.
abbrev pub member_text : Member → CString
member_text m = m.name ++ (61 ∷ m.peer_url)

abbrev pub cluster_text : List Member → CString
cluster_text ms = join 44 (map member_text ms)

skip_space-ink : (s : CString) → BeginsInk s → skip_space s ≡ s
unfolding skip_space
skip_space-ink [] h = refl
skip_space-ink (c ∷ s) h = rw h

Lacks-append : (c : ℕ) (s t : CString) → Lacks c s → Lacks c t → Lacks c (s ++ t)
Lacks-append c [] t p q = q
Lacks-append c (b ∷ s) t p q = (p.0, Lacks-append c s t p.1 q)

member-AllTokens : (ms : List Member) → AllPlain ms → AllTokens 44 (map member_text ms)
member-AllTokens [] h = tt
member-AllTokens (m ∷ ms) h = (
  (
    some_text m.name (61 ∷ m.peer_url) h.0.named,
    Lacks-append 44 m.name (61 ∷ m.peer_url) h.0.name_comma (refl, h.0.url_comma),
  ),
  member-AllTokens ms h.1,
)
  where
    some_text : (s t : CString) → s ≢ [] → s ++ t ≢ []
    some_text [] t h = absurd (h refl)
    some_text (c ∷ s) t h = cc

-- The text of a member is one item, and breaks at its first equals sign.
member_item :
    (m : Member)
    → IsPlain m
    → (c : ℕ) × (s : CString) × (skip_space (member_text m) ≡ c ∷ s)
      × (break_at 61 (c ∷ s) ≡ some (m.name, m.peer_url))
member_item m h = go m.name m.peer_url h.named h.name_ink h.name_equals
  where
    go :
        (name url : CString)
        → name ≢ []
        → BeginsInk name
        → Lacks 61 name
        → (c : ℕ) × (s : CString) × (skip_space (name ++ (61 ∷ url)) ≡ c ∷ s)
          × (break_at 61 (c ∷ s) ≡ some (name, url))
    go [] url n ink lacks = absurd (n refl)
    go (c ∷ name) url n ink lacks = (
      c,
      name ++ (61 ∷ url),
      skip_space-ink (c ∷ (name ++ (61 ∷ url))) ink,
      break_at-first 61 (c ∷ name) url lacks,
    )

count-members : (ms : List Member) → AllPlain ms → count_items (map member_text ms) ≡ length ms
unfolding count_items
count-members [] h = refl
count-members (m ∷ ms) h =
    let (c, s, e, b) = member_item m h.0 in rw (e, count_items) (ap suc (count-members ms h.1))

read_members_plain :
    (ms : List Member) → AllPlain ms → read_members (length ms) (map member_text ms) ≡ some ms
unfolding read_members
read_members_plain [] h = refl
read_members_plain (m ∷ ms) h =
    let (c, s, e, b) = member_item m h.0 in
    rw (
      read_members,
      e,
      b,
      read_members_plain ms h.1,
      skip_space-ink m.name h.0.name_ink,
      skip_space-ink m.peer_url h.0.url_ink,
    )

-- A list of members is written with commas between them, each as its name, an equals sign and its
-- URL. Where every name is not empty and holds neither a comma nor an equals sign, no URL holds a
-- comma, and neither a name nor a URL begins with space, the text is parsed into exactly those
-- members, in their order.
pub parse-cluster_text :
    (ms : List Member)
    → AllPlain ms
    → parse_initial_cluster (some (cluster_text ms)) ≡ (ok, length ms, ms)
unfolding parse_initial_cluster parsed
parse-cluster_text ms h = rw (
  tokens-join 44 (map member_text ms) (member-AllTokens ms h),
  count-members ms h,
  read_members_plain ms h,
)
