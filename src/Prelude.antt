-- ===== src/Prelude.antt =====
-- Names that every module of the library uses: the mounted libraries', passed on, and those of
-- the children (tests and branching, C arrays, fixed-width words, bit operations, signed numbers).
mod Tests
mod Lists
mod Slices
mod Words
mod Bits
mod Int
mod Text
unfoldable pub use Tests.*
pub use Lists.*
pub use Slices.*
pub use Words.*
pub use Bits.*
pub use Int.*
pub use Text.*
pub use Prim.Native.Nat.{ℕ, zero, suc, ◌+◌, ◌-◌, ◌*◌, ◌/◌, ◌%◌, ◌^◌, ◌≤◌, ◌<◌, bit_and, bit_or, min}
pub use mathlib.Core.Path.{◌≡◌, refl, sym, ap, ◌∙◌, subst}
pub use mathlib.Core.Logic.{◌≢◌, ◌↔◌, ◌⊎◌, inl, inr}
pub use mathlib.Core.Bool.{Bool, true, false, not, ◌&&◌, ◌||◌}
pub use mathlib.Core.Option.{Option, none, some}
pub use mathlib.Core.List.{List, [], ◌∷◌, ◌++◌, map, append_assoc, append-nil}
pub use native.Mathlib.Omega.{arith}
