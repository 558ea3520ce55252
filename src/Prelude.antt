-- ===== src/Prelude.antt =====
-- The names that the modules share: those of the libraries, passed on, and those of the children:
-- Boolean tests, lists, machine words, results and maps.
mod Tests
mod Lists
mod Members
mod Words
mod Maps
pub use Tests.*
pub use text.Mathlib.TextEquality.{eq_iff}
pub use Lists.*
pub use Members.*
unfoldable pub use Words.*
unfoldable pub use Maps.*
pub use Prim.Native.Nat.{ℕ, zero, suc, ◌+◌, ◌-◌, ◌*◌, ◌/◌, ◌%◌, ◌^◌, ◌≤◌, ◌<◌, max, min}
pub use Prim.Native.String.{String}
pub use mathlib.Core.Path.{◌≡◌, refl, sym, ap, subst, ◌∙◌, fun_ext}
pub use mathlib.Core.Logic.{◌≢◌, ◌↔◌, ◌⊎◌, inl, inr}
pub use mathlib.Core.Bool.{Bool, true, false, not, ◌&&◌, ◌||◌}
pub use mathlib.Core.Option.{Option, none, some, get_or}
pub use mathlib.Core.List.{List, [], ◌∷◌, ◌++◌, map, reverse}
pub use native.Mathlib.Omega.{arith}
