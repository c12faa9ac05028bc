-- ===== src/Prelude.antt =====
-- The names that the other modules share: the libraries' names, passed on, and the helpers of its
-- children: tests on numbers, lists, finite maps, machine words and byte strings.
mod Tests
mod Lists
mod Maps
mod Keys
mod Words
mod Strings
pub mod Text
pub use Tests.*
pub use Lists.*
unfoldable pub use Maps.{find, insert, map_values}
pub use Maps.{Assoc, value_or, at, find-insert, find-map_values}
unfoldable pub use Keys.{elem, keys_where, retain_where}
pub use Keys.{
  holds, retain, Distinct, Distinct-insert, Distinct-map_values, find-retain_where,
  Distinct-retain_where, elem-keys_where,
}
pub use Words.*
pub use Strings.*
pub use Prim.Native.Nat.{ℕ, zero, suc, ◌+◌, ◌-◌, ◌*◌, ◌/◌, ◌%◌, ◌^◌, ◌≤◌, ◌<◌, bit_and, min}
pub use Prim.Native.String.{String}
pub use mathlib.Core.Path.{◌≡◌, refl, sym, ap, ap₂, subst, ◌∙◌}
pub use mathlib.Core.Logic.{◌≢◌, ◌↔◌, ◌⊎◌, inl, inr}
pub use mathlib.Core.Bool.{Bool, true, false, not, ◌&&◌, ◌||◌}
pub use mathlib.Core.Option.{Option, none, some}
pub use mathlib.Core.List.{List, [], ◌∷◌, ◌++◌, map}
pub use native.Mathlib.Omega.{arith}
unfoldable pub use native.Mathlib.Decide.{dec_lt, ℕ_discrete}
