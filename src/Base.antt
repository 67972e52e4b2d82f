-- ===== src/Base.antt =====
-- What all parts share: the library names in use, tests on numbers, lists measured by native
-- numbers, little-endian integers, and output files with a write position.
mod Tests
mod Lists
pub mod Predicates
pub mod Bytes
pub mod Output
pub mod Distinct
pub mod Slice
pub mod Search
pub mod Text
pub mod Words
pub mod Ordered
pub mod Keyed
pub use Tests.*
unfoldable pub use Lists.*
pub use Prim.Native.Nat.{ℕ, zero, suc, ◌+◌, ◌-◌, ◌*◌, ◌/◌, ◌%◌, ◌^◌, ◌≤◌, ◌<◌, min, max}
pub use mathlib.Core.Path.{◌≡◌, refl, sym, ap, ◌∙◌, subst}
pub use mathlib.Core.Logic.{◌≢◌, ◌↔◌, ◌⊎◌, inl, inr}
pub use mathlib.Core.Bool.{Bool, true, false, not, ◌&&◌, ◌||◌}
pub use mathlib.Core.Option.{Option, none, some}
pub use mathlib.Core.List.{List, [], ◌∷◌, ◌++◌, map, append-nil, append_assoc}
pub use native.Mathlib.Omega.{arith}
