-- ===== src/Prelude.antt =====
-- The names that the modules share: the libraries', passed on, and those of six children.
-- Nothing here stands for a particular part of the program.
mod Tests
mod Lists
mod Tables
mod Ordering
mod Updates
mod Texts
pub use Tests.*
pub use Lists.*
pub use Tables.*
pub use Ordering.*
pub use Updates.*
pub use Texts.*
pub use Prim.Native.Nat.{ℕ, zero, suc, ◌+◌, ◌-◌, ◌*◌, ◌/◌, ◌%◌, ◌^◌, ◌≤◌, ◌<◌, max, min}
pub use mathlib.Core.Path.{◌≡◌, refl, sym, ap, subst, ◌∙◌}
pub use mathlib.Core.Logic.{◌≢◌, ◌↔◌, ◌⊎◌, inl, inr}
pub use mathlib.Core.Bool.{Bool, true, false, not, ◌&&◌, ◌||◌}
pub use mathlib.Core.Option.{Option, none, some}
pub use mathlib.Core.List.{List, [], ◌∷◌, ◌++◌, map, reverse, append_assoc, append-nil}
pub use native.Mathlib.Omega.{arith}
