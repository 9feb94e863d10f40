-- ===== src/Base/Words.antt =====
-- `int64_t` as the 64 bits that hold it: a number below 2 ^ 64, negative from 2 ^ 63 on. Likewise
-- `int32_t` with 32 bits.
-- PostgreSQL compiles extensions with -fwrapv, so that signed arithmetic wraps.
use Prim.Native.Nat.{ℕ, ◌+◌, ◌-◌, ◌%◌, ◌<◌}
use mathlib.Core.Path.{◌≡◌}
use mathlib.Core.Bool.{Bool}
use native.Mathlib.Omega.{arith}
use pgraft.Base.Bools.{ltb, if◌then◌else◌}

abbrev pub two63 : ℕ
two63 = 9_223_372_036_854_775_808

abbrev pub two64 : ℕ
two64 = 18_446_744_073_709_551_616

abbrev pub add64 : ℕ → ℕ → ℕ
add64 a b = (a + b) % two64

-- a < b as `int64_t`: adding 2 ^ 63 turns the signed order into that of the bits.
abbrev pub lt64 : ℕ → ℕ → Bool
lt64 a b = ltb ((a + two63) % two64) ((b + two63) % two64)

-- The bits of -1.
abbrev pub minus_one : ℕ
minus_one = 18_446_744_073_709_551_615

abbrev pub two31 : ℕ
two31 = 2_147_483_648

abbrev pub two32 : ℕ
two32 = 4_294_967_296

-- a < b as `int32_t`.
abbrev pub lt32 : ℕ → ℕ → Bool
lt32 a b = ltb ((a + two31) % two32) ((b + two31) % two32)

-- The conversion of an `int32_t` to `int64_t`, and the one back, which keeps the low 32 bits.
abbrev pub widen : ℕ → ℕ
widen a = if ltb a two31 then a else a + (two64 - two32)

abbrev pub narrow : ℕ → ℕ
narrow a = a % two32

-- On non-negative values the signed order is that of the numbers.
pub lt64-eq-ltb : (a b : ℕ) → a < two63 → b < two63 → lt64 a b ≡ ltb a b
lt64-eq-ltb a b p q = ground arith
