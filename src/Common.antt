-- ===== src/Common.antt =====
-- Names that the modules share: those of the libraries, passed on, and those of the children.
mod Tests
mod Rows
mod Sort
mod Least
mod Growth
mod Text
mod Decimal
mod Digits
mod Numerals
pub use Tests.*
pub use Rows.*
pub use Sort.*
pub use Least.*
pub use Growth.*
pub use Text.*
pub use Decimal.*
unfoldable pub use Digits.*
unfoldable pub use Numerals.*
pub use Prim.Native.Nat.{ℕ, zero, suc, ◌+◌, ◌-◌, ◌*◌, ◌/◌, ◌%◌, ◌≤◌, ◌<◌, min, max}
pub use Prim.Native.String.{String}
pub use mathlib.Core.Path.{◌≡◌, refl, sym, ap, ◌∙◌, subst}
pub use mathlib.Core.Logic.{◌≢◌, ◌↔◌, ◌⊎◌, inl, inr}
pub use mathlib.Core.Bool.{Bool, true, false, not, ◌&&◌, ◌||◌}
pub use mathlib.Core.Option.{Option, none, some}
pub use mathlib.Core.List.{List, [], ◌∷◌, ◌++◌, map}
pub use native.Mathlib.Omega.{arith}
