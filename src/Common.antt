-- ===== src/Common.antt =====
-- Names that all modules share: the libraries', passed on, and the helpers of the children.
-- Go's strings are byte sequences, so a text is a list of byte values (`Common/Text.antt`), and a
-- Go map is an association list (`Common/Dict.antt`).
mod Tests
mod Lists
pub mod Text
pub mod Dict
pub mod Sorting
pub mod Decimal
pub mod Result
pub use Tests.*
unfoldable pub use Lists.*
pub use Decimal.{ℤ, pos, negsuc, is_positive}
pub use Prim.Native.Nat.{ℕ, zero, suc, ◌+◌, ◌-◌, ◌*◌, ◌/◌, ◌%◌, ◌≤◌, ◌<◌}
pub use mathlib.Core.Path.{◌≡◌, refl, sym, ap, ap₂, subst, ◌∙◌}
pub use mathlib.Core.Logic.{◌≢◌, ◌↔◌, ◌⊎◌, inl, inr}
pub use mathlib.Core.Bool.{Bool, true, false, not, ◌&&◌, ◌||◌}
pub use mathlib.Core.Option.{Option, none, some}
pub use mathlib.Core.List.{List, [], ◌∷◌, ◌++◌, map}
pub use native.Mathlib.Omega.{arith}
