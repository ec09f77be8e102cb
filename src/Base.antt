-- ===== src/Base.antt =====
-- Names that every component uses: the libraries', passed on, and those of the children
-- (Boolean tests, lists, texts, tables of rows, JSON values).
mod Tests
mod Lists
mod Strings
mod Errors
mod Table
mod Members
mod Batch
pub mod Json
pub mod Result
pub use Tests.*
pub use Lists.*
pub use Strings.*
pub use Errors.*
pub use Table.*
pub use Members.*
pub use Batch.*
pub use Prim.Native.Nat.{ℕ, zero, suc, ◌+◌, ◌-◌, ◌*◌, ◌/◌, ◌%◌, ◌^◌, ◌≤◌, ◌<◌, min, max}
pub use Prim.Native.Nat.{bit_and, bit_xor}
pub use mathlib.Core.Path.{◌≡◌, refl, sym, ap, ◌∙◌}
pub use mathlib.Core.Logic.{◌≢◌, ◌↔◌, ◌⊎◌, inl, inr}
pub use mathlib.Core.Bool.{Bool, true, false, ◌&&◌, ◌||◌, not}
pub use mathlib.Core.Option.{Option, none, some}
pub use mathlib.Core.List.{List, [], ◌∷◌, ◌++◌, map}
pub use native.Mathlib.Omega.{arith}
unfoldable pub use native.Mathlib.Decide.{dec_lt, ℕ_discrete}
