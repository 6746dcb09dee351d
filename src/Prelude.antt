-- ===== src/Prelude.antt =====
-- The names that the other modules share: the libraries', passed on, and those of the children.
mod Tests
mod Lists
mod Raise
mod ByteString
mod Int
mod Words
mod Decimal
mod Text
pub mod Bits
pub use Tests.*
pub use Lists.*
pub use Raise.*
unfoldable pub use Raise.{item_at}
pub use ByteString.*
unfoldable pub use ByteString.{bytes_eq, compare_bytes}
pub use Int.*
pub use Words.*
pub use Decimal.*
pub use Text.*
unfoldable pub use Words.{to_le, from_le, to_be, from_be}
unfoldable pub use Text.{onto_first, split_on, lines_of, universal_newlines, drop_last}
unfoldable pub use Decimal.{print_ℕ, print_ℤ, int_of}
unfoldable pub use Int.{◌+ℤ◌, ◌-ℤ◌}
pub use Prim.Native.Nat.{ℕ, zero, suc, ◌+◌, ◌-◌, ◌*◌, ◌/◌, ◌%◌, ◌^◌, ◌≤◌, ◌<◌}
pub use mathlib.Core.Path.{◌≡◌, refl, sym, ap, ◌∙◌}
pub use mathlib.Core.Logic.{◌≢◌, ◌↔◌, ◌⊎◌, inl, inr}
pub use mathlib.Core.Bool.{Bool, true, false, not, ◌&&◌, ◌||◌}
pub use mathlib.Core.Option.{Option, none, some}
pub use mathlib.Core.List.{List, [], ◌∷◌, ◌++◌, map, append-nil, append_assoc}
pub use native.Mathlib.Omega.{arith}
unfoldable pub use native.Mathlib.Decide.{dec_lt, ℕ_discrete}
