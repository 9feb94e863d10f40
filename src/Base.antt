-- ===== src/Base.antt =====
-- The names that the other modules share: the libraries', passed on, and those of the children,
-- on tests, arrays, 64-bit words, C strings and the ways a C function ends.
mod Bools
mod Arrays
mod Search
mod Squeeze
mod Words
mod Shift
mod Texts
mod Decimal
mod Tokens
mod Numbers
mod Outcome
pub use Bools.*
unfoldable pub use Squeeze.*
unfoldable pub use Search.*
pub use Arrays.*
pub use Words.*
unfoldable pub use Shift.*
unfoldable pub use Texts.*
unfoldable pub use Decimal.*
unfoldable pub use Tokens.*
pub use Numbers.*
pub use Outcome.*
pub use Prim.Native.Nat.{ℕ, zero, suc, ◌+◌, ◌-◌, ◌*◌, ◌/◌, ◌%◌, ◌^◌, ◌≤◌, ◌<◌}
pub use mathlib.Core.Path.{◌≡◌, refl, sym, ap, ◌∙◌}
pub use mathlib.Core.Logic.{◌≢◌, ◌↔◌, ◌⊎◌, inl, inr}
pub use mathlib.Core.Bool.{Bool, true, false, not, ◌&&◌, ◌||◌}
pub use mathlib.Core.Option.{Option, none, some}
pub use mathlib.Core.List.{List, [], ◌∷◌, ◌++◌, map, append-nil, append_assoc}
pub use native.Mathlib.Omega.{arith}
