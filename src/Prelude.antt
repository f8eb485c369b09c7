-- ===== src/Prelude.antt =====
-- The names that the other modules share: the libraries', passed on, and those of the children.
mod Tests
mod Lists
mod Results
mod ByteStrings
mod Decimals
pub use Tests.*
pub use Lists.*
pub use Results.*
pub use Decimals.{IsDigit, decimal-injective, All-decimal, colon_unique}
unfoldable pub use Decimals.{decimal}
unfoldable pub use ByteStrings.{bytes_eq, bytes_lt}
pub use ByteStrings.{
  Bytes, codes, bytes_eq_iff, bytes_eq_sound, bytes_eq_refl, bytes_lt_irrefl, bytes_lt_trans,
  bytes_lt_total, bytes_lt_asymm, append_injective, bytes_decide,
}
pub use Prim.Native.Nat.{ℕ, zero, suc, ◌+◌, ◌-◌, ◌*◌, ◌/◌, ◌%◌, ◌^◌, ◌≤◌, ◌<◌}
pub use mathlib.Core.Path.{◌≡◌, refl, sym, ap, ◌∙◌}
pub use mathlib.Core.Logic.{◌≢◌, ◌↔◌, ◌⊎◌, inl, inr}
pub use mathlib.Core.Bool.{Bool, true, false, not, ◌&&◌, ◌||◌}
pub use mathlib.Core.Option.{Option, none, some}
pub use mathlib.Core.List.{List, [], ◌∷◌, ◌++◌, map}
pub use native.Mathlib.Omega.{arith}
