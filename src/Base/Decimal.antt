-- ===== src/Base/Decimal.antt =====
-- Numbers in text: what `snprintf` prints for %lu and %d, and what `strtoull` and `atoi` read.
use Prim.Native.Nat.{ℕ, zero, suc, ◌+◌, ◌-◌, ◌*◌, ◌/◌, ◌%◌, ◌^◌, ◌<◌, min}
use mathlib.Core.Path.{◌≡◌, refl, ap, ◌∙◌}
use mathlib.Core.List.{[], ◌∷◌}
use mathlib.Core.Bool.{Bool, true, false, ◌&&◌, ◌||◌}
use native.Mathlib.Omega.{arith}
use pgraft.Base.Bools.{ltb, leb, ◌==◌, if◌then◌else◌, Bool-cases}
use mathlib.Core.Logic.{inl, inr}
use pgraft.Base.Texts.{CString}
use pgraft.Base.Words.{two31, two32, two63, two64}

-- The characters that `isspace` accepts in the C locale.
abbrev pub is_space : ℕ → Bool
is_space c = c == 32 || (leb 9 c && leb c 13)

abbrev pub is_digit : ℕ → Bool
is_digit c = leb 48 c && leb c 57

unfoldable pub skip_space : CString → CString
skip_space [] = []
skip_space (c ∷ s) = if is_space c then skip_space s else c ∷ s

-- The digits of `n` in front of `out`; 20 rounds are enough below 10 ^ 20, so for 64 bits.
unfoldable pub print_digits : ℕ → ℕ → CString → CString
print_digits zero n out = out
print_digits (suc rounds) n out = elim (ltb n 10) [
  | true ↦ (48 + n) ∷ out
  | false ↦ print_digits rounds (n / 10) ((48 + n % 10) ∷ out)
]

-- %lu of a 64-bit number.
unfoldable pub decimal : ℕ → CString
decimal n = print_digits 20 n []

-- %d of the 32 bits of an `int`.
unfoldable pub decimal32 : ℕ → CString
decimal32 n = if ltb n two31 then decimal n else 45 ∷ decimal (two32 - n)

-- The number that the digits at the front spell behind `n`.
unfoldable pub read_digits : ℕ → CString → ℕ
read_digits n [] = n
read_digits n (c ∷ s) =
    let rest = read_digits (n * 10 + (c - 48)) s in if is_digit c then rest else n

-- The sign, and the number behind it.
unfoldable pub read_signed : CString → Bool × ℕ
read_signed [] = (false, 0)
read_signed (c ∷ s) =
    if c == 45
    then (true, read_digits 0 s)
    else if c == 43
    then (false, read_digits 0 s)
    else (false, read_digits 0 (c ∷ s))

-- `strtoull(s, NULL, 10)`: out of range it is the greatest number, and a sign negates.
unfoldable pub strtoull : CString → ℕ
strtoull s =
    let (negative, n) = read_signed (skip_space s) in
    if leb two64 n then two64 - 1 else if negative then (two64 - n) % two64 else n

-- `atoi(s)`, which is `(int) strtol(s, NULL, 10)`: the low 32 bits of the saturated `long`.
unfoldable pub atoi : CString → ℕ
atoi s =
    let (negative, n) = read_signed (skip_space s) in
    if negative then (two64 - min n two63) % two32 else min n (two63 - 1) % two32

-- No digit comes next.
abbrev pub IsEnd : CString → Type 0
IsEnd [] = Unit
IsEnd (c ∷ s) = is_digit c ≡ false

pub read_digits-end : (n : ℕ) (rest : CString) → IsEnd rest → read_digits n rest ≡ n
unfolding read_digits
read_digits-end n [] h = refl
read_digits-end n (c ∷ s) h = rw h

read_digits-digit :
    (n d : ℕ) (s : CString) → d < 10 → read_digits n ((48 + d) ∷ s) ≡ read_digits (n * 10 + d) s
unfolding read_digits
read_digits-digit n d s h = ground arith

-- Each round puts the last digit in front of the text, and leaves the digits before it.
pub read_digits-print :
    (rounds n : ℕ) (out : CString)
    → n < 10 ^ rounds
    → read_digits 0 (print_digits rounds n out) ≡ read_digits n out
unfolding print_digits
read_digits-print zero n out h = ap (λ k. read_digits k out) (omega arith)
read_digits-print (suc rounds) n out h = elim (Bool-cases (ltb n 10)) [
  | inl last ↦
      rw (print_digits, last)
        (read_digits-digit 0 n out (ground arith) ∙ ap (λ k. read_digits k out) (omega arith))
  | inr more ↦
      rw (print_digits, more)
        (read_digits-print rounds (n / 10) ((48 + n % 10) ∷ out) (grind arith)
          ∙ read_digits-digit (n / 10) (n % 10) out (omega arith)
          ∙ ap (λ k. read_digits k out) (omega arith))
]
