-- ===== src/Prelude.antt =====
-- The names that all modules share: numbers, Boolean tests, lists measured by native numbers.
mod Tests
mod Lists
mod Integers
mod Slices
mod Lookup
pub use Tests.*
pub use Lists.*
unfoldable pub use Slices.{equal}
pub use Slices.{slice, splice, slice_middle, splice_middle, equal_iff, equal_refl}
pub use Lookup.*
pub use Integers.*
pub use Prim.Native.Nat.{ℕ, zero, suc, ◌+◌, ◌-◌, ◌*◌, ◌/◌, ◌%◌, ◌^◌, ◌≤◌, ◌<◌, min, max}
pub use mathlib.Core.Path.{◌≡◌, refl, sym, ap, ◌∙◌, subst}
pub use mathlib.Core.Logic.{◌≢◌, ◌↔◌, ◌⊎◌, inl, inr}
pub use mathlib.Core.Bool.{Bool, true, false, not, ◌&&◌, ◌||◌}
pub use mathlib.Core.Option.{Option, none, some}
pub use mathlib.Core.List.{List, [], ◌∷◌, ◌++◌, map, append-nil, append_assoc}
pub use native.Mathlib.Omega.{arith}
