-- ===== src/Base/Shift.antt =====
-- Taking one element out of an array by moving those behind it down.
use Prim.Native.Nat.{ℕ, zero, suc, ◌+◌, ◌<◌, ◌≤◌}
use mathlib.Core.Path.{◌≡◌, refl, ap, ◌∙◌}
use mathlib.Core.Logic.{◌≢◌}
use mathlib.Core.List.{List, [], ◌∷◌}
use native.Mathlib.Omega.{arith}
use pgraft.Base.Arrays.{length, length-set, get_or, set, take, drop}

module _ {ℓ} {A : Type ℓ} where
  -- The list without its element `i`.
  unfoldable pub remove_at : ℕ → List A → List A
  remove_at i [] = []
  remove_at zero (x ∷ xs) = xs
  remove_at (suc i) (x ∷ xs) = x ∷ remove_at i xs

  pub take-remove_at : (i : ℕ) (xs : List A) → take i (remove_at i xs) ≡ take i xs
  unfolding remove_at
  take-remove_at zero [] = refl
  take-remove_at (suc i) [] = refl
  take-remove_at zero (x ∷ xs) = refl
  take-remove_at (suc i) (x ∷ xs) = ap (λ t. x ∷ t) (take-remove_at i xs)

  pub drop-remove_at : (i : ℕ) (xs : List A) → drop i (remove_at i xs) ≡ drop (suc i) xs
  unfolding remove_at
  drop-remove_at zero [] = refl
  drop-remove_at (suc i) [] = refl
  drop-remove_at zero (x ∷ xs) = refl
  drop-remove_at (suc i) (x ∷ xs) = drop-remove_at i xs

module _ {ℓ} {A : Type ℓ} (d : A) where
  -- `for (; rounds > 0; j++) xs[j] = xs[j + 1];`
  unfoldable pub shift_down : ℕ → ℕ → List A → List A
  shift_down zero j xs = xs
  shift_down (suc rounds) j xs = shift_down rounds (suc j) (set xs j (get_or xs (suc j) d))

  pub length-shift_down : (rounds j : ℕ) (xs : List A) → length (shift_down rounds j xs) ≡ length xs
  unfolding shift_down
  length-shift_down zero j xs = refl
  length-shift_down (suc rounds) j xs =
      length-shift_down rounds (suc j) (set xs j (get_or xs (suc j) d))
      ∙ length-set xs j (get_or xs (suc j) d)

  shift_down-cons :
      (rounds j : ℕ) (x : A) (xs : List A)
      → shift_down rounds (suc j) (x ∷ xs) ≡ x ∷ shift_down rounds j xs
  unfolding shift_down
  shift_down-cons zero j x xs = refl
  shift_down-cons (suc rounds) j x xs =
      shift_down-cons rounds (suc j) x (set xs j (get_or xs (suc j) d))

  take-shift_head :
      (rounds : ℕ) (x : A) (xs : List A)
      → rounds ≤ length xs
      → take rounds (shift_down rounds 0 (x ∷ xs)) ≡ take rounds xs
  unfolding shift_down
  take-shift_head zero x xs h = refl
  take-shift_head (suc rounds) x [] h = elim h [ ]
  take-shift_head (suc rounds) x (y ∷ xs) h =
      rw (shift_down-cons rounds 0 y (y ∷ xs))
        (ap (λ t. y ∷ t) (take-shift_head rounds y xs (omega arith)))

  -- The loop that starts at `i` and stops before the last of the elements in use.
  pub take-shift_down :
      (i rounds n : ℕ) (xs : List A)
      → n ≡ i + rounds
      → n < length xs
      → take n (shift_down rounds i xs) ≡ remove_at i (take (suc n) xs)
  unfolding remove_at
  take-shift_down i rounds n [] e h = elim h [ ]
  take-shift_down zero rounds n (x ∷ xs) e h =
      let same : n ≡ rounds = omega arith in
      rw same (take-shift_head rounds x xs (omega (arith, same)))
  take-shift_down (suc i) rounds zero (x ∷ xs) e h =
      absurd (let no : zero ≢ suc i + rounds = omega arith in no e)
  take-shift_down (suc i) rounds (suc n) (x ∷ xs) e h =
      rw (shift_down-cons rounds i x xs)
        (ap (λ t. x ∷ t) (take-shift_down i rounds n xs (omega arith) (omega arith)))
