-- ===== src/Base/Squeeze.antt =====
-- Compacting an array in place: the elements that pass a test move down over those that fail.
use native.Mathlib.Numerals.{add-one}
use Prim.Native.Nat.{ℕ, zero, suc, ◌+◌, ◌<◌, ◌≤◌}
use mathlib.Core.Path.{◌≡◌, refl, sym, ap, ◌∙◌}
use mathlib.Core.Logic.{inl, inr}
use mathlib.Core.List.{List, [], ◌∷◌, ◌++◌, append-nil, append_assoc}
use mathlib.Core.Bool.{Bool, true, false}
use native.Mathlib.Omega.{arith}
use pgraft.Base.Bools.{Bool-cases}
use pgraft.Base.Arrays.{
  length, length-set, get_or, set, take, drop, take-set_end, drop-set_lt, drop-cons,
}
use pgraft.Base.Search.{filter}

pub set-get_or {ℓ} : {A : Type ℓ} (xs : List A) (i : ℕ) (d : A) → set xs i (get_or xs i d) ≡ xs
set-get_or [] i d = refl
set-get_or (x ∷ xs) zero d = refl
set-get_or (x ∷ xs) (suc i) d = ap (λ t. x ∷ t) (set-get_or xs i d)

module _ {ℓ} {A : Type ℓ} (keep : A → Bool) (d : A) where
  -- `i` runs over the array, `j` is the next place to fill.
  unfoldable pub squeeze : ℕ → ℕ → ℕ → List A → List A × ℕ
  squeeze zero i j xs = (xs, j)
  squeeze (suc rounds) i j xs = elim (keep (get_or xs i d)) [
    | true ↦ squeeze rounds (i + 1) (j + 1) (set xs j (get_or xs i d))
    | false ↦ squeeze rounds (i + 1) j xs
  ]

  -- What the rounds from `i` leave, started with `j` places filled.
  pub record Squeezed (rounds i j : ℕ) (xs : List A) (out : List A × ℕ) : Type ℓ where
    pub kept : take out.1 out.0 ≡ take j xs ++ filter keep (take rounds (drop i xs))
    pub rest : drop out.1 out.0 ≡ drop out.1 xs
    pub above : j ≤ out.1
    pub bound : out.1 ≤ j + rounds
    pub same_length : length out.0 ≡ length xs

  take-drop-suc :
      (r i : ℕ) (xs : List A)
      → i < length xs
      → take (suc r) (drop i xs) ≡ get_or xs i d ∷ take r (drop (i + 1) xs)
  take-drop-suc r i xs lt = rw (drop-cons i xs d lt, add-one)

  Squeezed-skip :
      (r i j : ℕ) (xs : List A) (out : List A × ℕ)
      → i < length xs
      → keep (get_or xs i d) ≡ false
      → Squeezed r (i + 1) j xs out
      → Squeezed (suc r) i j xs out
  unfolding filter
  Squeezed-skip r i j xs out lt drops m = record {
    kept = rw (take-drop-suc r i xs lt, drops) m.kept;
    rest = m.rest;
    above = m.above;
    bound = omega (arith, m.bound);
    same_length = m.same_length;
  }

  Squeezed-keep :
      (r i j : ℕ) (xs : List A) (out : List A × ℕ)
      → j ≤ i
      → i < length xs
      → keep (get_or xs i d) ≡ true
      → Squeezed r (i + 1) (j + 1) (set xs j (get_or xs i d)) out
      → Squeezed (suc r) i j xs out
  unfolding filter
  Squeezed-keep r i j xs out le lt keeps m = record {
    kept =
        rw (take-drop-suc r i xs lt, keeps)
          (m.kept
            ∙ rw (
              take-set_end j xs (get_or xs i d) (omega arith),
              drop-set_lt (i + 1) xs j (get_or xs i d) (omega arith),
              append_assoc,
            ));
    rest = m.rest ∙ drop-set_lt out.1 xs j (get_or xs i d) (omega (arith, m.above));
    above = omega (arith, m.above);
    bound = omega (arith, m.bound);
    same_length = m.same_length ∙ length-set xs j (get_or xs i d);
  }

  pub squeeze-Squeezed :
      (rounds i j : ℕ) (xs : List A)
      → j ≤ i
      → i + rounds ≤ length xs
      → Squeezed rounds i j xs (squeeze rounds i j xs)
  unfolding squeeze filter
  squeeze-Squeezed zero i j xs le fits = record {
    kept = sym (append-nil (take j xs));
    rest = refl;
    above = omega arith;
    bound = omega arith;
    same_length = refl;
  }
  squeeze-Squeezed (suc r) i j xs le fits = elim (Bool-cases (keep (get_or xs i d))) [
    | inl keeps ↦
        rw (keeps, squeeze)
          (Squeezed-keep r i j xs _ le (omega arith) keeps (
            squeeze-Squeezed r (i + 1) (j + 1) (set xs j (get_or xs i d)) (omega arith)
              (omega (arith, length-set xs j (get_or xs i d)))))
    | inr drops ↦
        rw (drops, squeeze)
          (Squeezed-skip r i j xs _ (omega arith) drops
            (squeeze-Squeezed r (i + 1) j xs (omega arith) (omega arith)))
  ]
