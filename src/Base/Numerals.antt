-- ===== src/Base/Numerals.antt =====
-- `strconv.ParseInt(s, 10, 64)`: an optional sign and decimal digits, within int64.
use Prim.Native.Nat.{ℕ, zero, suc, ◌+◌, ◌-◌, ◌*◌, ◌^◌}
use mathlib.Core.Bool.{◌||◌}
use mathlib.Core.Option.{Option, none, some}
use mathlib.Core.List.{[], ◌∷◌}
use monitoring.Base.Tests.{ltb, leb, ◌==◌, if◌then◌else◌}
use monitoring.Base.Bytes.{Text}
use monitoring.Base.Ints.{ℤ, pos, negsuc}

-- The number that digits spell behind the digits of `acc`.
unfoldable pub digits_value : ℕ → Text → Option ℕ
digits_value acc [] = some acc
digits_value acc (c ∷ s) =
    let rest = digits_value (acc * 10 + (c - b'0')) s in
    if ltb c b'0' || ltb b'9' c then none else rest

-- A numeral has a digit at least.
abbrev pub unsigned : Text → Option ℕ
unsigned [] = none
unsigned (c ∷ s) = digits_value 0 (c ∷ s)

abbrev pub as_positive : Option ℕ → Option ℤ
as_positive none = none
as_positive (some n) = if ltb n (2 ^ 63) then some (pos n) else none

abbrev pub negative : ℕ → ℤ
negative zero = pos 0
negative (suc n) = negsuc n

abbrev pub as_negative : Option ℕ → Option ℤ
as_negative none = none
as_negative (some n) = if leb n (2 ^ 63) then some (negative n) else none

unfoldable pub parse_int : Text → Option ℤ
unfolding digits_value
parse_int [] = none
parse_int (c ∷ s) =
    if c == b'-'
    then as_negative (unsigned s)
    else if c == b'+'
    then as_positive (unsigned s)
    else as_positive (unsigned (c ∷ s))
