-- ===== src/Base.antt =====
-- The names that the other modules share: the libraries', passed on, and those of the children.
mod Tests
mod Lists
mod Texts
mod Signed
mod Sorting
unfoldable pub use Sorting.{sort_by}
pub use Sorting.{Sorted, All-sort, sort_by-Sorted, length-sort}
pub use Tests.*
pub use Lists.*
unfoldable pub use Texts.{dedupe}
pub use Texts.{
  text_eq, text_lt, codes, contains, subset, text_eq_iff, text_eq_refl, contains-append,
  contains-dedupe, Distinct, dedupe-Distinct, dedupe-eq-nil_iff, any_of-contains,
}
pub use Signed.*
pub use Prim.Native.Nat.{ℕ, zero, suc, ◌+◌, ◌-◌, ◌*◌, ◌/◌, ◌%◌, ◌^◌, ◌≤◌, ◌<◌, min, max}
pub use Prim.Native.String.{String}
pub use mathlib.Core.Path.{◌≡◌, refl, sym, ap, subst, ◌∙◌}
pub use mathlib.Core.Logic.{◌≢◌, ◌↔◌, ◌⊎◌, inl, inr}
pub use mathlib.Core.Bool.{Bool, true, false, not, ◌&&◌, ◌||◌}
pub use mathlib.Core.Option.{Option, none, some}
pub use mathlib.Core.List.{List, [], ◌∷◌, ◌++◌, map}
pub use native.Mathlib.Omega.{arith}
pub use text.Mathlib.TextEquality.{eq_iff}
