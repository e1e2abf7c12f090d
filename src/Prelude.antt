-- ===== src/Prelude.antt =====
-- The names that the other modules share: the libraries', passed on, and those of the children.
mod Tests
mod Lists
mod Text
mod Int
mod Sorting
mod Utf8
mod Decimal
mod Membership
mod TextOrder
pub use Tests.*
pub use Lists.*
pub use Text.*
pub use Int.*
unfoldable pub use Decimal.{itoa, format_uint}
unfoldable pub use Decimal.{value}
pub use Decimal.{◌+++◌, value-format_uint}
unfoldable pub use Sorting.{sort_by}
pub use Sorting.*
pub use Membership.*
unfoldable pub use TextOrder.{text_leb, order_by, distinct}
pub use TextOrder.*
unfoldable pub use Utf8.{utf8_valid}
pub use Prim.Native.Nat.{ℕ, zero, suc, ◌+◌, ◌-◌, ◌*◌, ◌/◌, ◌%◌, ◌^◌, ◌≤◌, ◌<◌}
pub use Prim.Native.String.{String}
pub use mathlib.Core.Path.{◌≡◌, refl, sym, ap, ap₂, subst, ◌∙◌}
pub use mathlib.Core.Logic.{◌≢◌, ◌↔◌, ◌⊎◌, inl, inr}
pub use mathlib.Core.Bool.{Bool, true, false, not, ◌&&◌, ◌||◌, false≢true}
pub use mathlib.Core.Option.{Option, none, some}
pub use mathlib.Core.List.{List, [], ◌∷◌, ◌++◌, map}
pub use text.Mathlib.TextEquality.{eq_iff}
pub use text.Mathlib.TextPositions.{eq_refl}
pub use native.Mathlib.Omega.{arith}
