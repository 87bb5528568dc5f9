-- ===== src/Base.antt =====
-- What the modules share: library names passed on, tests and conditionals, lists and arrays
-- over native numbers, and the C integers.
mod Tests
mod Lists
mod Int
mod Blocks
mod Bytes
pub use Tests.*
unfoldable pub use Lists.*
pub use Int.*
unfoldable pub use Blocks.*
pub use Bytes.*
pub use Prim.Native.Nat.{min, ℕ, zero, suc, ◌+◌, ◌-◌, ◌*◌, ◌/◌, ◌%◌, ◌^◌, ◌≤◌, ◌<◌}
pub use mathlib.Core.Path.{◌≡◌, refl, sym, ap, ap₂, ◌∙◌, subst}
pub use mathlib.Core.Logic.{◌≢◌, ◌↔◌, ◌⊎◌, inl, inr}
pub use mathlib.Core.Bool.{Bool, true, false, ◌&&◌, ◌||◌, not}
pub use mathlib.Core.Option.{Option, none, some}
pub use mathlib.Core.List.{List, [], ◌∷◌, ◌++◌, map, append_assoc, append-nil}
pub use native.Mathlib.Omega.{arith}
