-- ===== src/Base.antt =====
-- Names shared by all modules: the libraries', passed on, and those of the children: Boolean tests,
-- lists over the native numbers, and Python statements that change a state and may raise.
mod Tests
mod Lists
mod Actions
mod Preservation
mod Dicts
mod Rotation
mod Integers
pub use Tests.*
pub use Lists.*
pub use Actions.*
pub use Preservation.*
unfoldable pub use Dicts.*
pub use Rotation.*
pub use Integers.*
pub use Prim.Native.Nat.{ℕ, zero, suc, ◌+◌, ◌-◌, ◌*◌, ◌/◌, ◌%◌, ◌≤◌, ◌<◌}
pub use Prim.Native.String.{String}
pub use mathlib.Core.Path.{◌≡◌, refl, sym, ap, subst, ◌∙◌}
pub use mathlib.Core.Logic.{◌≢◌, ◌↔◌, ◌⊎◌, inl, inr}
pub use mathlib.Core.Bool.{Bool, true, false, not, ◌&&◌, ◌||◌}
pub use mathlib.Core.Option.{Option, none, some}
pub use mathlib.Core.List.{List, [], ◌∷◌, ◌++◌, map}
pub use native.Mathlib.Omega.{arith}
