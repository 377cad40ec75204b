-- ===== src/Base.antt =====
-- The names that all the files share: the libraries' names, passed on, and those of the children.
-- `Equality` is Python's `==` and `in`, `Lists` the list helpers, `Text` Python's `str` methods.
mod Equality
pub mod Lists
pub mod Text
mod Digits
pub mod Dict
pub mod Int
pub mod Json
pub mod Exec
pub mod Event
pub mod Computing
unfoldable pub use Equality.*
pub use Prim.Native.Nat.{ℕ, zero, suc, ◌+◌, ◌-◌, ◌*◌, ◌≤◌, ◌<◌}
pub use Prim.Native.String.{String}
pub use mathlib.Core.Path.{◌≡◌, refl, sym, ap, subst, ◌∙◌}
pub use mathlib.Core.Logic.{◌≢◌, ◌↔◌, ◌⊎◌, inl, inr}
pub use mathlib.Core.Bool.{Bool, true, false, not, ◌&&◌, ◌||◌}
pub use mathlib.Core.Option.{Option, none, some}
pub use mathlib.Core.List.{List, [], ◌∷◌, ◌++◌, map}
pub use native.Mathlib.Omega.{arith}
