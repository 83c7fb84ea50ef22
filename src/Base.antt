-- ===== src/Base.antt =====
-- The names that every module of the library shares: the libraries', passed on, and those of
-- the children, which hold Boolean tests, the outcome of code that may panic, checked machine
-- arithmetic, lists indexed by native numbers and bit operations.
mod Tests
mod Fallible
mod Word
mod Lists
pub mod Bits
pub mod Masks
pub mod Tables
pub use Tests.*
pub use Fallible.*
pub use Word.*
pub use Lists.*
pub use Prim.Native.Nat.{
  ℕ, zero, suc, ◌+◌, ◌-◌, ◌*◌, ◌/◌, ◌%◌, ◌^◌, ◌≤◌, ◌<◌, min, max, bit_and, bit_or,
}
pub use mathlib.Core.Path.{◌≡◌, refl, sym, ap, ◌∙◌, subst}
pub use mathlib.Core.Logic.{◌≢◌, ◌↔◌, ◌⊎◌, inl, inr}
pub use mathlib.Core.Bool.{Bool, true, false, not, ◌&&◌, ◌||◌}
pub use mathlib.Core.Option.{Option, none, some}
pub use mathlib.Core.List.{List, [], ◌∷◌, ◌++◌, map}
pub use native.Mathlib.Omega.{arith}
