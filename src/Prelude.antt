-- ===== src/Prelude.antt =====
-- The names that all parts share: the libraries', passed on, and those of the children.
mod Tests
mod Lists
mod Words
mod Steps
mod Tables
mod Append
mod Endings
mod Splits
pub mod Bits
pub use Tests.*
pub use Lists.*
pub use Words.*
pub use Steps.*
unfoldable pub use Tables.*
pub use Append.*
pub use Endings.*
pub use Splits.*
pub use Prim.Native.Nat.{
  ℕ, zero, suc, ◌+◌, ◌-◌, ◌*◌, ◌/◌, ◌%◌, ◌^◌, ◌≤◌, ◌<◌, bit_and, bit_or, bit_xor,
}
pub use mathlib.Core.Path.{◌≡◌, refl, sym, ap, ◌∙◌}
pub use mathlib.Core.Logic.{◌≢◌, ◌↔◌, ◌⊎◌, inl, inr}
pub use mathlib.Core.Bool.{Bool, true, false, not, ◌&&◌, ◌||◌}
pub use mathlib.Core.Option.{Option, none, some}
pub use mathlib.Core.List.{List, [], ◌∷◌, ◌++◌, map}
pub use native.Mathlib.Omega.{arith}
pub use native.Mathlib.Decide.{dec_lt, dec_le, ℕ_discrete}
