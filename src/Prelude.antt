-- ===== src/Prelude.antt =====
-- The names that the other modules share: those of the libraries, passed on, and those of the
-- children. A Go string of valid UTF-8 is the list of its code points (`Str`).
mod Tests
mod Lists
mod Text
mod Fields
mod Splits
mod Outcomes
mod Checks
mod Sorting
mod Maps
mod Paths
pub use Tests.*
pub use Lists.*
unfoldable pub use Text.*
pub use Fields.*
pub use Splits.*
pub use Outcomes.*
pub use Checks.*
unfoldable pub use Sorting.*
unfoldable pub use Maps.*
unfoldable pub use Paths.*
pub use Prim.Native.Nat.{ℕ, zero, suc, ◌+◌, ◌-◌, ◌*◌, ◌/◌, ◌%◌, ◌≤◌, ◌<◌}
pub use mathlib.Core.Path.{◌≡◌, refl, sym, ap, ◌∙◌, subst}
pub use mathlib.Core.Logic.{◌≢◌, ◌↔◌, ◌⊎◌, inl, inr}
pub use mathlib.Core.Bool.{Bool, true, false, not, ◌&&◌, ◌||◌}
pub use mathlib.Core.Option.{Option, none, some}
pub use mathlib.Core.List.{List, [], ◌∷◌, ◌++◌, map, append_assoc, append-nil}
pub use native.Mathlib.Omega.{arith}
