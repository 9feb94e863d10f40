-- ===== src/Base/Search.antt =====
-- Searching an array: the loops that stop at the first element passing a test, and what they find.
use Prim.Native.Nat.{ℕ, zero, suc, ◌+◌, ◌<◌}
use mathlib.Core.Path.{◌≡◌, refl}
use mathlib.Core.List.{List, [], ◌∷◌, ◌++◌}
use mathlib.Core.Option.{Option, none, some}
use mathlib.Core.Bool.{Bool, true, false}
use native.Mathlib.Omega.{arith}
use pgraft.Base.Bools.{if◌then◌else◌}
use pgraft.Base.Arrays.{length, get_or, set}

abbrev pub bit : Bool → ℕ
bit true = 1
bit false = 0

abbrev pub next_index : Option ℕ → Option ℕ
next_index none = none
next_index (some i) = some (suc i)

abbrev pub first_of_two {ℓ} : {A : Type ℓ} → Option A → Option A → Option A
first_of_two none y = y
first_of_two (some x) y = some x

pub first_of_two-none {ℓ} : {A : Type ℓ} (x : Option A) → first_of_two x none ≡ x
first_of_two-none none = refl
first_of_two-none (some x) = refl

module _ {ℓ} {A : Type ℓ} (p : A → Bool) where
  -- `for (i = 0; i < n; i++) if (p(xs[i])) return i;`
  unfoldable pub find_index : List A → Option ℕ
  find_index [] = none
  find_index (x ∷ xs) = if p x then some 0 else next_index (find_index xs)

  -- The first element that passes.
  unfoldable pub find : List A → Option A
  find [] = none
  find (x ∷ xs) = if p x then some x else find xs

  unfoldable pub count : List A → ℕ
  count [] = 0
  count (x ∷ xs) = bit (p x) + count xs

  unfoldable pub filter : List A → List A
  filter [] = []
  filter (x ∷ xs) = if p x then x ∷ filter xs else filter xs

  pub find_index-none : (xs : List A) → find_index xs ≡ none → find xs ≡ none
  unfolding find_index find
  find_index-none [] h = refl
  find_index-none (x ∷ xs) h = ground (arith, find_index-none xs)

  pub find_index-lt : (xs : List A) (i : ℕ) → find_index xs ≡ some i → i < length xs
  unfolding find_index
  find_index-lt [] i h = ground arith
  find_index-lt (x ∷ xs) zero h = omega arith
  find_index-lt (x ∷ xs) (suc i) h = ground (arith, find_index-lt xs i)

  pub find_index-find :
      (xs : List A) (i : ℕ) (d : A) → find_index xs ≡ some i → find xs ≡ some (get_or xs i d)
  unfolding find_index find
  find_index-find [] i d h = ground arith
  find_index-find (x ∷ xs) zero d h = ground arith
  find_index-find (x ∷ xs) (suc i) d h = ground (arith, find_index-find xs i d)

  pub find_index-holds :
      (xs : List A) (i : ℕ) (d : A) → find_index xs ≡ some i → p (get_or xs i d) ≡ true
  unfolding find_index
  find_index-holds [] i d h = ground arith
  find_index-holds (x ∷ xs) zero d h = ground arith
  find_index-holds (x ∷ xs) (suc i) d h = ground (arith, find_index-holds xs i d)

  pub find-holds : (xs : List A) (x : A) → find xs ≡ some x → p x ≡ true
  unfolding find
  find-holds [] x h = ground arith
  find-holds (y ∷ xs) x h = ground (arith, find-holds xs x)

  -- Overwriting the element found by another that passes.
  pub find-set_found :
      (xs : List A) (i : ℕ) (v : A)
      → find_index xs ≡ some i
      → p v ≡ true
      → find (set xs i v) ≡ some v
  unfolding find_index find
  find-set_found [] i v h pv = ground arith
  find-set_found (x ∷ xs) zero v h pv = ground arith
  find-set_found (x ∷ xs) (suc i) v h pv = ground (arith, find-set_found xs i v)

  -- Overwriting an element that fails by another that fails.
  pub find-set_other :
      (xs : List A) (i : ℕ) (v d : A)
      → i < length xs
      → p (get_or xs i d) ≡ false
      → p v ≡ false
      → find (set xs i v) ≡ find xs
  unfolding find
  find-set_other [] i v d h old new = refl
  find-set_other (x ∷ xs) zero v d h old new = ground arith
  find-set_other (x ∷ xs) (suc i) v d h old new =
      let lt : i < length xs = omega arith in ground (arith, find-set_other xs i v d lt old new)

  pub find-append : (xs ys : List A) → find (xs ++ ys) ≡ first_of_two (find xs) (find ys)
  unfolding find
  find-append [] ys = refl
  find-append (x ∷ xs) ys = ground (arith, find-append xs ys)

  pub filter-append : (xs ys : List A) → filter (xs ++ ys) ≡ filter xs ++ filter ys
  unfolding filter
  filter-append [] ys = refl
  filter-append (x ∷ xs) ys = ground (arith, filter-append xs ys)

  pub count-append : (xs ys : List A) → count (xs ++ ys) ≡ count xs + count ys
  unfolding count
  count-append [] ys = omega arith
  count-append (x ∷ xs) ys = omega (arith, count-append xs ys)

  pub count-set :
      (xs : List A) (i : ℕ) (v d : A)
      → i < length xs
      → count (set xs i v) + bit (p (get_or xs i d)) ≡ count xs + bit (p v)
  unfolding count
  count-set [] i v d h = elim h [ ]
  count-set (x ∷ xs) zero v d h = omega arith
  count-set (x ∷ xs) (suc i) v d h =
      let lt : i < length xs = omega arith in omega (arith, count-set xs i v d lt)

  pub find_of_count_zero : (xs : List A) → count xs ≡ 0 → find xs ≡ none
  unfolding count find
  find_of_count_zero [] h = refl
  find_of_count_zero (x ∷ xs) h = ground (arith, find_of_count_zero xs)

  pub count_of_find-none : (xs : List A) → find xs ≡ none → count xs ≡ 0
  unfolding count find
  count_of_find-none [] h = refl
  count_of_find-none (x ∷ xs) h = ground (arith, count_of_find-none xs)

-- A filter that keeps all that pass `p` does not change what a search for `p` meets.
module _ {ℓ} {A : Type ℓ} (p q : A → Bool) (keep : (x : A) → p x ≡ true → q x ≡ true) where
  pub find-filter : (xs : List A) → find p (filter q xs) ≡ find p xs
  unfolding find filter
  find-filter [] = refl
  find-filter (x ∷ xs) = ground (arith, find-filter xs, keep x)

  pub count-filter : (xs : List A) → count p (filter q xs) ≡ count p xs
  unfolding count filter
  count-filter [] = refl
  count-filter (x ∷ xs) = ground (arith, count-filter xs, keep x)

pub length-filter {ℓ} :
    {A : Type ℓ} (q : A → Bool) (xs : List A) → length (filter q xs) ≡ count q xs
unfolding filter count
length-filter q [] = refl
length-filter q (x ∷ xs) = ground (arith, length-filter q xs)
