-- ===== src/Base.antt =====
-- Shared notation: the libraries' names passed on, tests, lists, texts as bytes, and Go maps.
mod Tests
mod Lists
mod Texts
mod Dicts
mod Results
mod Ints
mod Loops
mod Registry
mod Drains
pub use Tests.*
pub use Lists.*
unfoldable pub use Texts.*
pub use Results.*
pub use Ints.*
unfoldable pub use Loops.*
unfoldable pub use Dicts.*
unfoldable pub use Registry.*
unfoldable pub use Drains.*
pub use Prim.Native.Nat.{ℕ, zero, suc, ◌+◌, ◌-◌, ◌*◌, ◌/◌, ◌%◌, ◌^◌, ◌≤◌, ◌<◌}
pub use mathlib.Core.Path.{◌≡◌, refl, sym, ap, subst, ◌∙◌}
pub use mathlib.Core.Logic.{◌≢◌, ◌↔◌, ◌⊎◌, inl, inr}
pub use mathlib.Core.Bool.{Bool, true, false, not, ◌&&◌, ◌||◌}
pub use mathlib.Core.Option.{Option, none, some}
pub use mathlib.Core.List.{List, [], ◌∷◌, ◌++◌, map}
pub use native.Mathlib.Omega.{arith}
