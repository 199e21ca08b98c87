-- ===== src/Base.antt =====
-- Names that the other modules share: the libraries' names passed on, tests on numbers, lists,
-- byte strings and machine words.
mod Tests
mod Lists
mod ByteStrings
mod Words
pub mod Bits
pub use Tests.*
pub use Lists.*
pub use ByteStrings.*
unfoldable pub use ByteStrings.{ascii}
unfoldable pub use Words.{to_be_bytes32, to_be_bytes64, from_be_bytes}
pub use Words.*
pub use Prim.Native.Nat.{ℕ, zero, suc, ◌+◌, ◌-◌, ◌*◌, ◌/◌, ◌%◌, ◌^◌, ◌≤◌, ◌<◌, min, max, bit_and}
pub use mathlib.Core.Path.{◌≡◌, refl, sym, ap, ◌∙◌, subst}
pub use mathlib.Core.Logic.{◌≢◌, ◌↔◌, ◌⊎◌, inl, inr}
pub use mathlib.Core.Bool.{Bool, true, false, not, ◌&&◌, ◌||◌}
pub use mathlib.Core.Option.{Option, none, some}
pub use mathlib.Core.List.{List, [], ◌∷◌, ◌++◌, append_assoc, append-nil}
pub use native.Mathlib.Omega.{arith}
