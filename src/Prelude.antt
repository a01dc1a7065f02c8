-- ===== src/Prelude.antt =====
-- The names that the other modules share: the libraries', passed on, and those of the children:
-- Boolean tests, native-length lists, results with errors, bit operations and text.
mod Tests
mod Lists
mod Results
mod Bits
mod Fields
mod Tables
mod Strings
mod Lines
mod Dicts
mod Decimal
mod TextOrder
mod Sorting
mod Hex
mod Integers
pub use Tests.*
pub use Lists.*
pub use Results.*
pub use Bits.*
pub use Fields.*
pub use Tables.*
unfoldable pub use Strings.*
unfoldable pub use Lines.*
unfoldable pub use Dicts.*
unfoldable pub use Decimal.*
pub use TextOrder.*
unfoldable pub use Sorting.*
pub use Hex.*
unfoldable pub use Integers.*
pub use Prim.Native.Nat.{
  ℕ, zero, suc, ◌+◌, ◌-◌, ◌*◌, ◌/◌, ◌%◌, ◌^◌, ◌≤◌, ◌<◌, min, max, bit_and, bit_or, bit_xor,
}
pub use Prim.Native.String.{String}
pub use mathlib.Core.Path.{◌≡◌, refl, sym, ap, ◌∙◌, fun_ext, subst}
pub use mathlib.Core.Logic.{◌≢◌, ◌↔◌, ◌⊎◌, inl, inr}
pub use mathlib.Core.Bool.{Bool, true, false, not, ◌&&◌, ◌||◌}
pub use mathlib.Core.Option.{Option, none, some}
pub use mathlib.Core.List.{List, [], ◌∷◌, ◌++◌, map, append_assoc, append-nil}
pub use native.Mathlib.Omega.{arith}
