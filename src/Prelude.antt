-- ===== src/Prelude.antt =====
-- The names that the other modules share: the libraries', passed on, and those of its children.
mod Tests
mod Lists
mod Texts
mod Digits
mod Table
mod Updates
mod Rows
mod Deletes
mod Trim
mod SafeParse
pub use Tests.*
pub use Lists.*
unfoldable pub use Texts.*
unfoldable pub use Digits.*
unfoldable pub use Table.*
unfoldable pub use Trim.*
unfoldable pub use SafeParse.*
pub use Updates.*
pub use Rows.*
pub use Deletes.*
pub use Prim.Native.Nat.{ℕ, zero, suc, ◌+◌, ◌-◌, ◌*◌, ◌/◌, ◌%◌, ◌^◌, ◌≤◌, ◌<◌, min, max}
pub use mathlib.Core.Path.{◌≡◌, refl, sym, ap, ap₂, subst, ◌∙◌}
pub use mathlib.Core.Logic.{◌≢◌, ◌↔◌, ◌⊎◌, inl, inr}
pub use mathlib.Core.Bool.{Bool, true, false, not, ◌&&◌, ◌||◌}
pub use mathlib.Core.Option.{Option, none, some}
pub use mathlib.Core.List.{List, [], ◌∷◌, ◌++◌, map}
pub use native.Mathlib.Omega.{arith}
