-- ===== src/Base.antt =====
-- The names that the other modules share: the libraries' and those of the children.
mod Tests
mod Equality
mod Lists
mod Maps
pub mod Order
pub mod Unique
pub use Tests.*
pub use Lists.*
pub use Equality.{
  Eq, ◌==◌, ==_refl, eq_of_==, nat_eq, Str, codes, str_beq_iff, str_eq, option_eq, option_beq_iff,
}
unfoldable pub use Equality.{str_beq}
pub use Maps.{Map, contains_key, get-insert, get-remove, insert_all, keys, values}
unfoldable pub use Maps.{get, insert, remove}
pub use Prim.Native.Nat.{ℕ, zero, suc, ◌+◌, ◌-◌, ◌*◌, ◌/◌, ◌%◌, ◌^◌, ◌≤◌, ◌<◌}
pub use mathlib.Core.Path.{◌≡◌, refl, sym, ap, ◌∙◌, subst}
pub use mathlib.Core.Logic.{◌≢◌, ◌↔◌, ◌⊎◌, inl, inr}
pub use mathlib.Core.Bool.{Bool, true, false, not, ◌&&◌, ◌||◌}
pub use mathlib.Core.Option.{Option, none, some}
pub use mathlib.Core.List.{List, [], ◌∷◌, ◌++◌, map}
pub use native.Mathlib.Omega.{arith}
