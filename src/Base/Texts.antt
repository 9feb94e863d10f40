-- ===== src/Base/Texts.antt =====
-- C strings as the bytes before the terminator.
use Prim.Native.Nat.{ℕ, zero, suc, ◌≤◌}
use Prim.Native.Char.{code}
use Prim.Native.String.{String}
use mathlib.Core.Path.{◌≡◌, refl}
use mathlib.Core.Logic.{◌↔◌, ◌⊎◌, inl, inr}
use mathlib.Core.List.{List, [], ◌∷◌}
use mathlib.Core.Bool.{Bool, true, false, ◌&&◌}
use native.Mathlib.Omega.{arith}
use pgraft.Base.Bools.{◌==◌}
use pgraft.Base.Arrays.{take, length}

abbrev pub CString : Type 0
CString = List ℕ

-- `strcmp(s, t) == 0`
unfoldable pub text_eq : CString → CString → Bool
text_eq [] [] = true
text_eq [] (c ∷ t) = false
text_eq (b ∷ s) [] = false
text_eq (b ∷ s) (c ∷ t) = b == c && text_eq s t

-- `strncpy(dst, src, size - 1); dst[size - 1] = '\0'`: what `dst` holds as a string.
abbrev pub copy_text : ℕ → CString → CString
copy_text size src = take size src

-- A literal of the source.
abbrev pub bytes : String → CString
bytes String.[] = []
bytes (String.◌∷◌ c s) = code c ∷ bytes s

pub text_eq_iff : (s t : CString) → (text_eq s t ≡ true) ↔ (s ≡ t)
unfolding text_eq
text_eq_iff [] [] = ground arith
text_eq_iff [] (c ∷ t) = ground arith
text_eq_iff (b ∷ s) [] = ground arith
text_eq_iff (b ∷ s) (c ∷ t) = ground (arith, text_eq_iff s t)

pub text_eq_self : (s : CString) → text_eq s s ≡ true
text_eq_self s = (text_eq_iff s s).1 refl

pub take-all {ℓ} : {A : Type ℓ} (n : ℕ) (s : List A) → length s ≤ n → take n s ≡ s
take-all zero [] h = refl
take-all zero (c ∷ s) h = elim h [ ]
take-all (suc n) [] h = refl
take-all (suc n) (c ∷ s) h = rw (take-all n s (omega arith))

pub text_cases {ℓ} : {A : Type ℓ} (s : List A) → (s ≡ []) ⊎ ((c : A) × (t : List A) × (s ≡ c ∷ t))
text_cases [] = inl refl
text_cases (c ∷ s) = inr (c, s, refl)
