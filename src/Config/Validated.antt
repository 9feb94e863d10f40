-- ===== src/Config/Validated.antt =====
-- What a configuration that `pgraft_validate_configuration` of src/pgraft_guc.c passes is parsed to.
use mathlib.Core.List.{cons-ne-nil}
use pgraft.Base.{
  ℕ, zero, suc, ◌≤◌, ◌≡◌, ◌≢◌, ◌∙◌, refl, sym, ap, inl, inr, Bool, true, false, ◌||◌, Option, none,
  some, ◌>>=◌, List, [], ◌∷◌, length, leb, leb→le, if◌then◌else◌, Bool-cases, Option-cases,
  text_cases, is_space, CString, bytes, skip_space, tokens, break_at, ok, arith,
}
use pgraft.Config.Urls.{begins_with, count_items}
use pgraft.Config.Members.{
  Member, read_members, parsed, parse_initial_cluster, contains, is_valid_member, check_members,
  GucVars, has_members, validate_configuration,
}

-- A member with a name and a URL that names a scheme.
pub record IsNamed (m : Member) : Type 0 where
  pub some_name : m.name ≢ []
  pub some_scheme :
      (contains (bytes "http://") m.peer_url || contains (bytes "https://") m.peer_url) ≡ true

abbrev pub AllNamed : List Member → Type 0
AllNamed [] = Unit
AllNamed (m ∷ ms) = IsNamed m × AllNamed ms

-- What the two loops make of the same tokens.
record Agree (n : ℕ) (ts : List CString) : Type 0 where
  members : List Member
  read : read_members (count_items ts) ts ≡ some members
  counted : count_items ts ≡ n
  many : length members ≡ n
  all_named : AllNamed members

-- The rounds of the three loops on a token.
module _ (t : CString) (ts : List CString) where
  count_blank : skip_space t ≡ [] → count_items (t ∷ ts) ≡ count_items ts
  unfolding count_items
  count_blank h = rw (count_items, h)

  read_blank : (n : ℕ) → skip_space t ≡ [] → read_members n (t ∷ ts) ≡ read_members n ts
  unfolding read_members
  read_blank zero h = refl
  read_blank (suc n) h = rw (read_members, h)

  check_blank : skip_space t ≡ [] → check_members (t ∷ ts) ≡ check_members ts
  unfolding check_members
  check_blank h = rw (check_members, h)

  module _ {c : ℕ} {s : CString} (item : skip_space t ≡ c ∷ s) where
    count_item : count_items (t ∷ ts) ≡ suc (count_items ts)
    unfolding count_items
    count_item = rw (count_items, item)

    check_no_equals : break_at 61 (c ∷ s) ≡ none → check_members (t ∷ ts) ≡ none
    unfolding check_members
    check_no_equals h = rw (check_members, item, h)

    module _ {name url : CString} (split : break_at 61 (c ∷ s) ≡ some (name, url)) where
      read_item :
          (n : ℕ)
          → read_members (suc n) (t ∷ ts) ≡ (
              read_members n ts >>= λ rest.
              some (record { name = skip_space name; peer_url = skip_space url } ∷ rest))
      unfolding read_members
      read_item n = rw (read_members, item, split)

      check_item : check_members (t ∷ ts) ≡ (
          check_members ts >>= λ count. if is_valid_member name url then some (suc count) else none)
      unfolding check_members
      check_item = rw (check_members, item, split)

-- What `skip_space` leaves begins with ink.
skip_space-ink : (t : CString) {c : ℕ} {s : CString} → skip_space t ≡ c ∷ s → is_space c ≡ false
unfolding skip_space
skip_space-ink [] {c} {s} h = cc
skip_space-ink (b ∷ t) {c} {s} h = elim (Bool-cases (is_space b)) [
  | inl space ↦ skip_space-ink t (sym (skip b t space) ∙ h)
  | inr ink ↦ let same : b ≡ c = cc (sym (keep b t ink) ∙ h) in rw (sym same) ink
]
  where
    keep : (b : ℕ) (t : CString) → is_space b ≡ false → skip_space (b ∷ t) ≡ b ∷ t
    keep b t e = rw e

    skip : (b : ℕ) (t : CString) → is_space b ≡ true → skip_space (b ∷ t) ≡ skip_space t
    skip b t e = rw e

-- The part before the equals sign begins as the token does, if it is not empty.
named :
    (c : ℕ) (s name url : CString)
    → break_at 61 (c ∷ s) ≡ some (name, url)
    → is_space c ≡ false
    → name ≢ []
    → skip_space name ≢ []
unfolding break_at skip_space
named c s [] url h ink some_name = absurd (some_name refl)
named c s (d ∷ name) url h ink some_name =
    let same : d ≡ c = first h in
    let kept : skip_space (d ∷ name) ≡ d ∷ name = rw (same, ink) in
    λ e. cons-ne-nil d name (sym kept ∙ e)
  where
    first : break_at 61 (c ∷ s) ≡ some (d ∷ name, url) → d ≡ c
    first h = ground arith

-- Space in front of a URL holds none of its scheme.
contains-skip_space :
    (part s : CString)
    → contains (104 ∷ part) s ≡ true
    → contains (104 ∷ part) (skip_space s) ≡ true
unfolding contains begins_with skip_space
contains-skip_space part [] h = h
contains-skip_space part (c ∷ s) h = elim (Bool-cases (is_space c)) [
  | inl space ↦ rw space (contains-skip_space part s (ground (arith, h, space)))
  | inr ink ↦ rw ink h
]

either :
    (p q url : CString)
    → (contains (104 ∷ p) url || contains (104 ∷ q) url) ≡ true
    → (contains (104 ∷ p) (skip_space url) || contains (104 ∷ q) (skip_space url)) ≡ true
either p q url h = elim (Bool-cases (contains (104 ∷ p) url)) [
  | inl first ↦ rw (contains-skip_space p url first)
  | inr none_first ↦
      let second : contains (104 ∷ q) url ≡ true =
        sym (ap (λ b. b || contains (104 ∷ q) url) none_first) ∙ h in
      rw (contains-skip_space q url second) (or_true (contains (104 ∷ p) (skip_space url)))
]
  where
    or_true : (b : Bool) → (b || true) ≡ true
    or_true true = refl
    or_true false = refl

valid-IsNamed :
    (c : ℕ) (s name url : CString)
    → break_at 61 (c ∷ s) ≡ some (name, url)
    → is_space c ≡ false
    → is_valid_member name url ≡ true
    → IsNamed (record { name = skip_space name; peer_url = skip_space url })
unfolding is_valid_member
valid-IsNamed c s [] url split ink h = cc
valid-IsNamed c s (d ∷ name) url split ink h = record {
  some_name = named c s (d ∷ name) url split ink (cons-ne-nil d name);
  some_scheme = either (bytes "ttp://") (bytes "ttps://") url h;
}

member_case :
    (t : CString) (ts : List CString) (n c : ℕ) (s name url : CString)
    → skip_space t ≡ c ∷ s
    → break_at 61 (c ∷ s) ≡ some (name, url)
    → check_members (t ∷ ts) ≡ some n
    → ((m : ℕ) → check_members ts ≡ some m → Agree m ts)
    → Agree n (t ∷ ts)
member_case t ts n c s name url item split h ih = elim (Option-cases (check_members ts)) [
  | inl fails ↦ (let no : none ≡ some n = sym (check_item t ts item split ∙ rw fails) ∙ h in cc)
  | inr (m, passes) ↦ elim (Bool-cases (is_valid_member name url)) [
    | inl valid ↦
        let a : Agree m ts = ih m passes in
        let whole : some (suc m) ≡ some n =
          sym (check_item t ts item split ∙ rw (passes, valid)) ∙ h in
        let next : suc m ≡ n = cc whole in
        record {
          members = record { name = skip_space name; peer_url = skip_space url } ∷ a.members;
          read =
              ap (λ k. read_members k (t ∷ ts)) (count_item t ts item)
              ∙ read_item t ts item split (count_items ts)
              ∙ rw a.read;
          counted = count_item t ts item ∙ ap suc a.counted ∙ next;
          many = ap suc a.many ∙ next;
          all_named = (valid-IsNamed c s name url split (skip_space-ink t item) valid, a.all_named);
        }
    | inr bad ↦
        (let no : none ≡ some n = sym (check_item t ts item split ∙ rw (passes, bad)) ∙ h in cc)
  ]
]

check_members-Agree : (ts : List CString) (n : ℕ) → check_members ts ≡ some n → Agree n ts
unfolding check_members read_members count_items
check_members-Agree [] n h = record {
  members = [];
  read = refl;
  counted = ground arith;
  many = ground arith;
  all_named = tt;
}
check_members-Agree (t ∷ ts) n h = elim (text_cases (skip_space t)) [
  | inl blank ↦
      let a : Agree n ts = check_members-Agree ts n (sym (check_blank t ts blank) ∙ h) in
      record {
        members = a.members;
        read =
            read_blank t ts (count_items (t ∷ ts)) blank
            ∙ ap (λ k. read_members k ts) (count_blank t ts blank)
            ∙ a.read;
        counted = count_blank t ts blank ∙ a.counted;
        many = a.many;
        all_named = a.all_named;
      }
  | inr (c, s, item) ↦ elim (Option-cases (break_at 61 (c ∷ s))) [
    | inl no_equals ↦ (let no : none ≡ some n = sym (check_no_equals t ts item no_equals) ∙ h in cc)
    | inr ((name, url), split) ↦
        member_case t ts n c s name url item split h (check_members-Agree ts)
  ]
]

validated-has_members :
    (g : GucVars) → validate_configuration g ≡ ok → has_members g.initial_cluster ≡ true
unfolding validate_configuration
validated-has_members g h = ground arith

abbrev ParsedWell : Option CString → Type 0
ParsedWell o =
    ((parse_initial_cluster o).0 ≡ ok)
    × (1 ≤ (parse_initial_cluster o).1)
    × (length (parse_initial_cluster o).2 ≡ (parse_initial_cluster o).1)
    × AllNamed (parse_initial_cluster o).2

has_members-ParsedWell : (o : Option CString) → has_members o ≡ true → ParsedWell o
unfolding has_members parse_initial_cluster parsed
has_members-ParsedWell none h = cc
has_members-ParsedWell (some []) h = cc
has_members-ParsedWell (some (c ∷ s)) h = elim (Option-cases (check_members (tokens 44 (c ∷ s)))) [
  | inl fails ↦ (let no : has_members (some (c ∷ s)) ≡ false = rw (has_members, fails) in cc)
  | inr (n, passes) ↦
      let a : Agree n (tokens 44 (c ∷ s)) = check_members-Agree (tokens 44 (c ∷ s)) n passes in
      let some_member : leb 1 n ≡ true = sym (has_members-some c s n passes) ∙ h in
      rw (a.read, a.counted) (refl, leb→le 1 n some_member, a.many, a.all_named)
]
  where
    has_members-some :
        (c : ℕ) (s : CString) (n : ℕ)
        → check_members (tokens 44 (c ∷ s)) ≡ some n
        → has_members (some (c ∷ s)) ≡ leb 1 n
    has_members-some c s n e = rw (has_members, e)

-- A configuration that passes the validation is parsed without an error into one member at least,
-- as many as are counted, each with a name and with a URL that holds "http://" or "https://".
pub validated-members :
    (g : GucVars)
    → validate_configuration g ≡ ok
    → ((parse_initial_cluster g.initial_cluster).0 ≡ ok)
      × (1 ≤ (parse_initial_cluster g.initial_cluster).1)
      × (length (parse_initial_cluster g.initial_cluster).2
          ≡ (parse_initial_cluster g.initial_cluster).1)
      × AllNamed (parse_initial_cluster g.initial_cluster).2
validated-members g h = has_members-ParsedWell g.initial_cluster (validated-has_members g h)
