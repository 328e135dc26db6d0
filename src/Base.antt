-- ===== src/Base.antt =====
-- Names that every part shares: the libraries', passed on, Boolean tests on numbers, lists measured
-- by native numbers, bytes and words, and the outcome of code that may fail or panic.
mod Tests
mod Lists
mod Outcomes
pub mod Bytes
pub mod Text
pub mod Values
pub mod Scan
pub mod Decimal
pub mod Blocks
pub mod Int
pub use Tests.*
pub use Lists.*
unfoldable pub use Outcomes.*
pub use Prim.Native.Nat.{ℕ, zero, suc, ◌+◌, ◌-◌, ◌*◌, ◌/◌, ◌%◌, ◌^◌, ◌≤◌, ◌<◌, max, min}
pub use mathlib.Core.Path.{◌≡◌, refl, sym, ap, ap₂, ◌∙◌, subst}
pub use mathlib.Core.Logic.{◌≢◌, ◌↔◌, ◌⊎◌, inl, inr}
pub use mathlib.Core.Bool.{Bool, true, false, not, ◌&&◌, ◌||◌}
pub use mathlib.Core.Option.{Option, none, some}
pub use mathlib.Core.List.{List, [], ◌∷◌, ◌++◌, map}
pub use native.Mathlib.Omega.{arith}
