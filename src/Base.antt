-- ===== src/Base.antt =====
-- The names that every module shares: the libraries' passed on, Boolean tests on the native
-- numbers, texts as lists of code points, and lookup in lists.
mod Tests
mod Texts
mod Lists
mod Dicts
mod Int
mod Pieces
pub use Tests.*
unfoldable pub use Texts.*
pub use Lists.*
unfoldable pub use Dicts.*
pub use Int.*
unfoldable pub use Pieces.*
pub use Prim.Native.Nat.{ℕ, zero, suc, ◌+◌, ◌-◌, ◌*◌, ◌/◌, ◌%◌, ◌^◌, ◌≤◌, ◌<◌, min}
pub use Prim.Native.String.{String}
pub use mathlib.Core.Path.{◌≡◌, refl, sym, ap, subst, ◌∙◌}
pub use mathlib.Core.Logic.{◌≢◌, ◌↔◌, ◌⊎◌, inl, inr}
pub use mathlib.Core.Bool.{Bool, true, false, not, ◌&&◌, ◌||◌}
pub use mathlib.Core.Option.{Option, none, some}
pub use mathlib.Core.List.{List, [], ◌∷◌, ◌++◌, map, reverse, append_assoc, append-nil}
pub use native.Mathlib.Omega.{arith}
