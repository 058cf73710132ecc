-- ===== src/Base.antt =====
-- The names that the other modules share: the libraries' and those of the children.
mod Tests
mod Lists
mod Map
mod Keys
mod Bytes
mod Scanner
mod Order
mod Ints
mod Floats
mod Sort
mod Decimal
mod Numerals
mod Rounding
mod Nearest
pub use Tests.*
unfoldable pub use Floats.*
unfoldable pub use Sort.*
unfoldable pub use Decimal.*
unfoldable pub use Rounding.*
pub use Nearest.*
unfoldable pub use Numerals.*
pub use Lists.*
unfoldable pub use Map.*
pub use Keys.*
unfoldable pub use Bytes.*
unfoldable pub use Scanner.*
unfoldable pub use Order.*
pub use Ints.*
pub use Prim.Native.Nat.{ℕ, zero, suc, ◌+◌, ◌-◌, ◌*◌, ◌/◌, ◌%◌, ◌^◌, ◌≤◌, ◌<◌}
pub use mathlib.Core.Path.{◌≡◌, refl, sym, ap, subst, ◌∙◌}
pub use mathlib.Core.Logic.{◌≢◌, ◌↔◌, ◌⊎◌, inl, inr, ite, if_pos, if_neg}
pub use mathlib.Core.Bool.{Bool, true, false, ◌&&◌, ◌||◌, not}
pub use mathlib.Core.Option.{Option, none, some}
pub use mathlib.Core.List.{List, [], ◌∷◌, ◌++◌, map}
pub use native.Mathlib.Omega.{arith}
unfoldable pub use native.Mathlib.Decide.{dec_lt, dec_le, ℕ_discrete}
