-- ===== src/Base/Floats.antt =====
-- Go's float64, with the operations that the code makes: the comparisons. Every finite float64 is
-- a whole multiple of 2 ^ -1074, so `fin n` is the value n * 2 ^ -1074 exactly; NaN compares false.
use Prim.Native.Nat.{ℕ, ◌+◌, ◌*◌, ◌/◌, ◌%◌, ◌^◌, ◌<◌, ◌≤◌}
use mathlib.Core.Path.{◌≡◌, ap}
use mathlib.Core.Bool.{Bool, true, false}
use native.Mathlib.Omega.{arith}
use native.Mathlib.Nat.{pow-le-pow_right, div-le_self}
use monitoring.Base.Tests.{ltb, if◌then◌else◌}
use monitoring.Base.Ints.{ℤ, pos, leb_ℤ}
use monitoring.Base.Rounding.{nearest}
use monitoring.Base.Nearest.{nearest_exact, nearest_zero, nearest_floor}

pub data Float64 : Type 0 where
  nan neg_inf pos_inf : Float64
  fin : ℤ → Float64

unit_bits : ℕ
unit_bits = 1074

unfoldable pub one_units : ℕ
unfolding unit_bits
one_units = 2 ^ unit_bits

-- The float64 of a whole number that it can represent.
unfoldable pub of_nat : ℕ → Float64
unfolding one_units
of_nat n = fin (pos (n * one_units))

-- `a <= b`
abbrev pub leb_float : Float64 → Float64 → Bool
leb_float nan b = false
leb_float a nan = false
leb_float neg_inf b = true
leb_float a pos_inf = true
leb_float pos_inf neg_inf = false
leb_float pos_inf (fin y) = false
leb_float (fin x) neg_inf = false
leb_float (fin x) (fin y) = leb_ℤ x y

-- A finite float64 that is not negative is also written as its number of units.
abbrev pub of_units : ℕ → Float64
of_units n = fin (pos n)

-- `float64(n)` for a number of type uint64
unfoldable pub float_units : ℕ → ℕ
float_units n = nearest n 1 * one_units

-- `a / b`
unfoldable pub div_units : ℕ → ℕ → ℕ
div_units a b = nearest (a * one_units) b

-- `uint64(a)`: the fraction is cut off. What becomes of a number that uint64 does not hold is left to
-- the machine, and `wild` is what it makes of it.
unfoldable pub to_uint64 : (ℕ → ℕ) → ℕ → ℕ
to_uint64 wild a = let n = a / one_units in if ltb n (2 ^ 64) then n else wild a

abbrev pub second : ℕ
second = 1_000_000_000

-- `d.Seconds()` for a duration in nanoseconds
unfoldable pub seconds_units : ℕ → ℕ
unfolding float_units div_units
seconds_units d =
    nearest (float_units (d / second) + div_units (float_units (d % second)) (float_units second)) 1

pub one_units-gt : 2 ^ 53 ≤ one_units
unfolding one_units unit_bits
one_units-gt = pow-le-pow_right {n = 2} (omega arith) {i = 53} {j = unit_bits} (omega arith)

nearest_whole : (n : ℕ) → n < 2 ^ 53 → nearest n 1 ≡ n
nearest_whole n h =
    let e : n * 2 ^ 0 ≡ n = omega arith in let same = nearest_exact n 0 h in rw e at same

nearest_units : (n : ℕ) → n < 2 ^ 53 → nearest (n * one_units) 1 ≡ n * one_units
unfolding one_units
nearest_units n h = nearest_exact n unit_bits h

pub float_units_exact : (n : ℕ) → n < 2 ^ 53 → float_units n ≡ n * one_units
unfolding float_units
float_units_exact n h = ap (λ m. m * one_units) (nearest_whole n h)

no_fraction : nearest (nearest 0 1 * one_units * one_units) (float_units second) ≡ 0
no_fraction =
    let e : 0 * one_units * one_units ≡ 0 = omega arith in
    rw (nearest_zero 1 (omega arith), e)
      (nearest_zero (float_units second)
        (omega (arith, float_units_exact second (omega arith), one_units-gt)))

whole_part : (s : ℕ) → s * second / second ≡ s
whole_part s = omega arith

no_part : (s : ℕ) → s * second % second ≡ 0
no_part s = omega arith

pub seconds_whole : (s : ℕ) → s < 2 ^ 53 → seconds_units (s * second) ≡ s * one_units
unfolding seconds_units
seconds_whole s h =
    let e : s * one_units + 0 ≡ s * one_units = omega arith in
    rw (whole_part s, no_part s, float_units_exact s h, no_fraction, e) (nearest_units s h)

-- Of whole numbers below 2 ^ 53 the quotient is cut to the one without remainder.
pub to_uint64-div :
    (wild : ℕ → ℕ) (d s : ℕ)
    → d < 2 ^ 53
    → 0 < s
    → s < 2 ^ 53
    → to_uint64 wild (div_units (float_units d) (s * one_units)) ≡ d / s
unfolding to_uint64 div_units one_units
to_uint64-div wild d s hd hs hl =
    let e : div_units (float_units d) (s * one_units) / one_units ≡ d / s =
      rw (float_units_exact d hd, div_units, one_units)
        (nearest_floor d s unit_bits hd hs (omega (arith, one_units-gt))) in
    rw e (ground (arith, div-le_self d s))
