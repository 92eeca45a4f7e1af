-- ===== src/Base.antt =====
-- The names the other modules share: the library's, passed on, and those of the children.
-- `Text` stands for Go's `string` (its bytes), `Maps` for Go's maps, `Lists` for slices.
mod Words
mod Lists
mod Searches
mod Maps
mod Order
mod Sorting
mod Decimal
pub mod Int
pub use Words.*
pub use Lists.*
pub use Searches.*
pub use Order.*
pub use Sorting.*
pub use Decimal.*
unfoldable pub use Words.{Text-discrete, blank}
pub use Maps.*
unfoldable pub use Maps.{lookup, insert, delete, map_values, count_values, select_pairs}
unfoldable pub use Lists.{contains}
unfoldable pub use Order.{text_lt, insert_text, sort_strings}
unfoldable pub use Decimal.{decimal}
pub use Prim.Native.Nat.{ℕ, zero, suc, ◌+◌, ◌-◌, ◌*◌, ◌/◌, ◌%◌, ◌^◌, ◌≤◌, ◌<◌}
pub use mathlib.Core.Path.{◌≡◌, refl, sym, ap, ◌∙◌, subst}
pub use mathlib.Core.Logic.{◌≢◌, ◌↔◌, ◌⊎◌, inl, inr}
pub use mathlib.Core.Bool.{Bool, true, false, not, ◌&&◌, ◌||◌}
pub use mathlib.Core.Option.{Option, none, some}
pub use mathlib.Core.List.{List, [], ◌∷◌, ◌++◌, map}
pub use native.Mathlib.Omega.{arith}
unfoldable pub use native.Mathlib.Decide.{ℕ_discrete}
