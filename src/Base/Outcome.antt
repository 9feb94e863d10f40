-- ===== src/Base/Outcome.antt =====
-- How a function of the extension ends.
use mathlib.Core.Option.{Option, none, some}

-- `ok` returns 0 (or true), `fail` returns -1 (or false). `raised` is elog(ERROR): PostgreSQL
-- leaves the function there, so that a `return -1` behind it does not run. `fault` is a write
-- outside an array, which C leaves undefined.
pub data Status : Type 0 where
  ok fail raised fault : Status

-- The chaining of `do` blocks.
infixl 5 ◌>>=◌
abbrev pub ◌>>=◌ {ℓ κ} : {A : Type ℓ} {B : Type κ} → Option A → (A → Option B) → Option B
none >>= f = none
some a >>= f = f a
