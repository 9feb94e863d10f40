-- ===== src/Base/Numbers.antt =====
-- Numbers printed and read back.
use Prim.Native.Nat.{ℕ, zero, suc, ◌+◌, ◌-◌, ◌/◌, ◌%◌, ◌≤◌, ◌<◌}
use mathlib.Core.Path.{◌≡◌}
use mathlib.Core.Logic.{◌≢◌, inl, inr}
use mathlib.Core.List.{[], ◌∷◌}
use mathlib.Core.Bool.{false}
use native.Mathlib.Omega.{arith}
use pgraft.Base.Bools.{ltb, ◌==◌, Bool-cases}
use pgraft.Base.Texts.{CString}
use pgraft.Base.Words.{two31, two32, two64}
use pgraft.Base.Decimal.{
  is_digit, skip_space, print_digits, decimal, decimal32, read_digits, read_signed, strtoull, atoi,
  read_digits-print,
}
use pgraft.Base.Tokens.{Lacks}

-- A text that begins with a digit.
abbrev pub BeginsDigit : CString → Type 0
BeginsDigit [] = 1 ≤ 0
BeginsDigit (c ∷ s) = (48 ≤ c) × (c ≤ 57)

print-BeginsDigit : (rounds n : ℕ) (out : CString) → BeginsDigit (print_digits (suc rounds) n out)
unfolding print_digits
print-BeginsDigit zero n out = elim (Bool-cases (ltb n 10)) [
  | inl last ↦ rw (print_digits, last) (ground arith)
  | inr more ↦ rw (print_digits, more) (omega arith)
]
print-BeginsDigit (suc rounds) n out = elim (Bool-cases (ltb n 10)) [
  | inl last ↦ rw (print_digits, last) (ground arith)
  | inr more ↦ rw (print_digits, more) (print-BeginsDigit rounds (n / 10) ((48 + n % 10) ∷ out))
]

read_signed-digits :
    (s : CString) → BeginsDigit s → read_signed (skip_space s) ≡ (false, read_digits 0 s)
unfolding read_signed skip_space
read_signed-digits [] h = ground (arith, h)
read_signed-digits (c ∷ s) h = ground (arith, h)

Lacks-print :
    (c rounds n : ℕ) (out : CString)
    → is_digit c ≡ false
    → Lacks c out
    → Lacks c (print_digits rounds n out)
unfolding print_digits
Lacks-print c zero n out h l = l
Lacks-print c (suc rounds) n out h l = elim (Bool-cases (ltb n 10)) [
  | inl last ↦ rw (print_digits, last) (differs n (ground arith), l)
  | inr more ↦
      rw (print_digits, more)
        (Lacks-print c rounds (n / 10) ((48 + n % 10) ∷ out) h (differs (n % 10) (omega arith), l))
]
  where
    differs : (d : ℕ) → d < 10 → (48 + d == c) ≡ false
    differs d lt = ground (arith, h)

-- A printed number has digits only, one at least.
pub decimal-BeginsDigit : (n : ℕ) → BeginsDigit (decimal n)
unfolding decimal
decimal-BeginsDigit n = print-BeginsDigit 19 n []

pub decimal-Lacks : (c n : ℕ) → is_digit c ≡ false → Lacks c (decimal n)
unfolding decimal
decimal-Lacks c n h = Lacks-print c 20 n [] h tt

pub decimal-ne-nil : (n : ℕ) → decimal n ≢ []
decimal-ne-nil n e = empty (decimal n) (decimal-BeginsDigit n) e
  where
    empty : (s : CString) → BeginsDigit s → s ≢ []
    empty [] b = omega (arith, b)
    empty (c ∷ s) b = cc

pub read-decimal : (n : ℕ) → n < two64 → read_digits 0 (decimal n) ≡ n
unfolding decimal read_digits
read-decimal n h = read_digits-print 20 n [] (omega arith)

-- A 64-bit number printed with %lu is read back by `strtoull`.
pub strtoull-decimal : (n : ℕ) → n < two64 → strtoull (decimal n) ≡ n
unfolding strtoull
strtoull-decimal n h =
    rw (read_signed-digits (decimal n) (decimal-BeginsDigit n), read-decimal n h) (ground arith)

pub atoi-decimal : (n : ℕ) → n < two31 → atoi (decimal n) ≡ n
unfolding atoi
atoi-decimal n h =
    rw (read_signed-digits (decimal n) (decimal-BeginsDigit n), read-decimal n (omega arith))
      (omega arith)

-- The 32 bits of an `int` printed with %d are read back by `atoi`.
pub atoi-decimal32 : (n : ℕ) → n < two32 → atoi (decimal32 n) ≡ n
unfolding decimal32 atoi read_signed skip_space
atoi-decimal32 n h = elim (Bool-cases (ltb n two31)) [
  | inl small ↦ rw small (atoi-decimal n (ground arith))
  | inr negative ↦ rw negative (negated n h (ground arith))
]
  where
    negated : (m : ℕ) → m < two32 → two31 ≤ m → atoi (45 ∷ decimal (two32 - m)) ≡ m
    negated m h le = rw (read-decimal (two32 - m) (omega arith)) (omega arith)

pub decimal32-Lacks : (c n : ℕ) → is_digit c ≡ false → (45 == c) ≡ false → Lacks c (decimal32 n)
unfolding decimal32
decimal32-Lacks c n h k = elim (Bool-cases (ltb n two31)) [
  | inl small ↦ rw small (decimal-Lacks c n h)
  | inr negative ↦ rw negative (k, decimal-Lacks c (two32 - n) h)
]

pub decimal32-ne-nil : (n : ℕ) → decimal32 n ≢ []
unfolding decimal32
decimal32-ne-nil n = elim (Bool-cases (ltb n two31)) [
  | inl small ↦ rw small (decimal-ne-nil n)
  | inr negative ↦ rw negative cc
]
