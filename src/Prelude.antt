-- ===== src/Prelude.antt =====
-- The names that the modules share: the libraries', passed on, and those of its children.
pub mod Bits
pub mod Masks
mod Tests
mod Lists
mod Int
mod Outcomes
mod Arrays
mod Text
pub use Tests.*
pub use Lists.*
pub use Int.*
pub use Outcomes.*
pub use Arrays.*
pub use Text.*
pub use Prim.Native.Nat.{ℕ, zero, suc, ◌+◌, ◌-◌, ◌*◌, ◌/◌, ◌%◌, ◌^◌, ◌≤◌, ◌<◌, min}
pub use mathlib.Core.Path.{◌≡◌, refl, sym, ap, ap₂, subst, ◌∙◌}
pub use mathlib.Core.Logic.{◌≢◌, ◌↔◌, ◌⊎◌, inl, inr}
pub use mathlib.Core.Bool.{Bool, true, false, not, ◌&&◌, ◌||◌}
pub use mathlib.Core.Option.{Option, none, some}
pub use mathlib.Core.List.{List, [], ◌∷◌, ◌++◌, map, append-nil, append_assoc}
pub use native.Mathlib.Omega.{arith}
