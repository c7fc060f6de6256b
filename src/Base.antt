-- ===== src/Base.antt =====
-- Names that every module uses: the libraries', passed on, and the helpers of the modules below.
mod Tests
mod Lists
mod Pick
mod PickOf
pub mod Text
pub mod Bits
pub mod Utf8
pub mod Int
pub mod Result
pub use Tests.*
pub use Lists.*
unfoldable pub use Pick.*
pub use PickOf.*
pub use Prim.Native.Nat.{ℕ, zero, suc, ◌+◌, ◌-◌, ◌*◌, ◌/◌, ◌%◌, ◌^◌, ◌≤◌, ◌<◌, min}
pub use mathlib.Core.Path.{◌≡◌, refl, sym, ap, ◌∙◌, subst}
pub use mathlib.Core.Logic.{◌≢◌, ◌↔◌, ◌⊎◌, inl, inr}
pub use mathlib.Core.Bool.{Bool, true, false, ◌&&◌, ◌||◌, not}
pub use mathlib.Core.Option.{Option, none, some}
pub use mathlib.Core.List.{List, [], ◌∷◌, ◌++◌, map}
pub use native.Mathlib.Omega.{arith}
