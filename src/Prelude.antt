-- ===== src/Prelude.antt =====
-- The names that the other modules share: the libraries', passed on, and those of the children.
mod Tests
mod Lists
mod Text
mod Calls
mod Sort
mod Numbers
pub use Tests.*
pub use Lists.*
unfoldable pub use Text.{text_dec, strip}
pub use Text.{is_empty, joined, strip-strip}
pub use Calls.*
unfoldable pub use Sort.{le_text, place_by, sort_by}
unfoldable pub use Numbers.{round_div}
pub use Sort.{
  keep-sort_by, length-sort_by, All-sort_by, IsSortedBy, sort_by-IsSortedBy, member-sort_by,
}
pub use Prim.Native.Nat.{ℕ, zero, suc, ◌+◌, ◌-◌, ◌*◌, ◌/◌, ◌%◌, ◌^◌, ◌≤◌, ◌<◌, min, max}
pub use Prim.Native.String.{String}
pub use mathlib.Core.Path.{◌≡◌, refl, sym, ap, ◌∙◌, subst}
pub use mathlib.Core.Logic.{◌≢◌, ◌↔◌, ◌⊎◌, inl, inr, ite}
pub use mathlib.Core.Bool.{Bool, true, false, not, ◌&&◌, ◌||◌}
pub use mathlib.Core.Option.{Option, none, some}
pub use mathlib.Core.List.{List, [], ◌∷◌, ◌++◌, map}
pub use native.Mathlib.Omega.{arith}
unfoldable pub use native.Mathlib.Decide.{ℕ_discrete}
