-- ===== src/Base/Tokens.antt =====
-- Cutting a text at separators: the tokens that repeated calls of `strtok_r` yield, and `strchr`.
use Prim.Native.Nat.{ℕ}
use mathlib.Core.Path.{◌≡◌, refl, sym, ap, ◌∙◌}
use mathlib.Core.Logic.{◌≢◌}
use mathlib.Core.List.{List, [], ◌∷◌, ◌++◌, append-nil, append_assoc}
use mathlib.Core.Option.{Option, none, some}
use mathlib.Core.Bool.{true, false}
use pgraft.Base.Bools.{◌==◌, ==_self, if◌then◌else◌}
use pgraft.Base.Texts.{CString}

-- A token is never empty.
abbrev pub flush : CString → List CString → List CString
flush [] rest = rest
flush (c ∷ token) rest = (c ∷ token) ∷ rest

-- `token` is what was read of the current token.
unfoldable pub tokens_from : ℕ → CString → CString → List CString
tokens_from sep [] token = flush token []
tokens_from sep (c ∷ s) token = elim (c == sep) [
  | true ↦ flush token (tokens_from sep s [])
  | false ↦ tokens_from sep s (token ++ (c ∷ []))
]

unfoldable pub tokens : ℕ → CString → List CString
tokens sep s = tokens_from sep s []

-- `strchr(s, c)`: the text before the first `c`, and the text behind it.
unfoldable pub break_at : ℕ → CString → Option (CString × CString)
break_at c [] = none
break_at c (b ∷ s) =
    let rest = break_at c s in
    if b == c
    then some ([], s)
    else elim rest [ none ↦ none | some (front, back) ↦ some (b ∷ front, back) ]

-- The text has no `c`.
abbrev pub Lacks : ℕ → CString → Type 0
Lacks c [] = Unit
Lacks c (b ∷ s) = ((b == c) ≡ false) × Lacks c s

flush_some : (token : CString) (rest : List CString) → token ≢ [] → flush token rest ≡ token ∷ rest
flush_some [] rest h = absurd (h refl)
flush_some (c ∷ token) rest h = refl

tokens_from-append :
    (sep : ℕ) (part rest token : CString)
    → Lacks sep part
    → tokens_from sep (part ++ rest) token ≡ tokens_from sep rest (token ++ part)
unfolding tokens_from
tokens_from-append sep [] rest token h = ap (tokens_from sep rest) (sym (append-nil token))
tokens_from-append sep (c ∷ part) rest token h =
    rw (tokens_from, h.0)
      (tokens_from-append sep part rest (token ++ (c ∷ [])) h.1
        ∙ ap (tokens_from sep rest) (append_assoc token (c ∷ []) part))

-- A token with a separator behind it.
pub tokens-next :
    (sep : ℕ) (part rest : CString)
    → part ≢ []
    → Lacks sep part
    → tokens sep (part ++ (sep ∷ rest)) ≡ part ∷ tokens sep rest
unfolding tokens tokens_from
tokens-next sep part rest some_part h =
    tokens_from-append sep part (sep ∷ rest) [] h
    ∙ rw (tokens_from, ==_self sep) (flush_some part (tokens_from sep rest []) some_part)

-- A token that ends the text.
pub tokens-last :
    (sep : ℕ) (part : CString) → part ≢ [] → Lacks sep part → tokens sep part ≡ part ∷ []
unfolding tokens tokens_from
tokens-last sep part some_part h =
    ap (λ s. tokens_from sep s []) (sym (append-nil part))
    ∙ tokens_from-append sep part [] [] h
    ∙ flush_some part [] some_part

pub break_at-first :
    (c : ℕ) (front back : CString)
    → Lacks c front
    → break_at c (front ++ (c ∷ back)) ≡ some (front, back)
unfolding break_at
break_at-first c [] back h = rw (==_self c)
break_at-first c (b ∷ front) back h = rw (h.0, break_at-first c front back h.1)

-- The parts with a separator between two.
unfoldable pub join : ℕ → List CString → CString
join sep [] = []
join sep (p ∷ ps) = elim ps [ [] ↦ p | (q ∷ qs) ↦ p ++ (sep ∷ join sep ps) ]

abbrev pub AllTokens : ℕ → List CString → Type 0
AllTokens sep [] = Unit
AllTokens sep (p ∷ ps) = ((p ≢ []) × Lacks sep p) × AllTokens sep ps

-- Parts that hold no separator and are not empty come back from their join.
pub tokens-join : (sep : ℕ) (ps : List CString) → AllTokens sep ps → tokens sep (join sep ps) ≡ ps
unfolding join tokens tokens_from
tokens-join sep [] h = refl
tokens-join sep (p ∷ []) h = tokens-last sep p h.0.0 h.0.1
tokens-join sep (p ∷ q ∷ ps) h =
    tokens-next sep p (join sep (q ∷ ps)) h.0.0 h.0.1
    ∙ ap (λ t. p ∷ t) (tokens-join sep (q ∷ ps) h.1)
