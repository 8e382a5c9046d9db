-- ===== src/Common.antt =====
-- The names that the other modules share: the libraries', passed on, and those of the children.
mod Tests
mod Lists
mod Faults
mod Distinct
mod Searches
mod Texts
pub use Searches.{
  All-unkeep, find-update_where, any-keep, update_where_none, any_none, keep-update_where, keep_all,
  keep-concat_none, All-map, All-both, find-update_other, find-append, any-All,
}
pub use Distinct.{
  only-Apart, Apart, Apart-concat, Apart-replace, find-Apart, filter_map-replace,
  filter_map-concat_none,
}
pub use Tests.*
unfoldable pub use Lists.{find, any, all, keep, update_where, has}
pub use Lists.{
  length, take, length-append, length-take, All, All-append, All-concat, All-take, find-All,
  All-update_where, All-keep, find-true, keep-true, find-concat, find-replace, find-none,
}
pub use Faults.*
pub use Texts.*
pub use Prim.Native.Nat.{ℕ, zero, suc, ◌+◌, ◌-◌, ◌*◌, ◌/◌, ◌%◌, ◌^◌, ◌≤◌, ◌<◌}
pub use Prim.Native.String.{String}
pub use mathlib.Core.Path.{◌≡◌, refl, sym, ap, ◌∙◌, subst}
pub use mathlib.Core.Logic.{◌≢◌, ◌↔◌, ◌⊎◌, inl, inr}
pub use mathlib.Core.Bool.{Bool, true, false, not, ◌&&◌, ◌||◌}
pub use mathlib.Core.Option.{Option, none, some}
pub use mathlib.Core.List.{List, [], ◌∷◌, ◌++◌, map, filter_map, append-nil, append_assoc}
pub use native.Mathlib.Omega.{arith}
pub use text.Mathlib.Text.{◌==◌}
pub use text.Mathlib.TextEquality.{eq_iff}
pub use text.Mathlib.TextPositions.{eq_refl}
