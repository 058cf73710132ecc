-- ===== src/Base/Nearest.antt =====
-- What rounding to 53 bits does to numbers that have as many, and to a quotient.
use Prim.Native.Nat.{ℕ, suc, ◌+◌, ◌-◌, ◌*◌, ◌/◌, ◌^◌, ◌<◌, ◌≤◌}
use mathlib.Core.Path.{◌≡◌, ap, ◌∙◌}
use mathlib.Core.Logic.{inl, inr}
use native.Mathlib.Nat.{
  div-le_self, mul-div-mul_right, mul-pos, mul-le-mul_right, mul-lt-mul_of_pos_right,
  lt-div-mul-add, div-mul-le_self, div-eq_of_lt-le, le_refl, mul-le-mul,
}
use native.Mathlib.Omega.{arith}
unfoldable use native.Mathlib.Decide.{dec_lt, dec_le}
use monitoring.Base.Rounding.{
  half_even, excess, nearest, half_even_bounds, excess_le, two_pow_pos, excess_shift, two_pow_split,
}

half_even-ge : (m num den : ℕ) → 0 < den → m * den ≤ num → m ≤ half_even num den
half_even-ge m num den h l = elim (dec_le m (half_even num den)) [
  | yes d ↦ d
  | no d ↦
      let p : suc (half_even num den) * den ≤ m * den = mul-le-mul (omega arith) (le_refl den) in
      absurd (omega (arith, half_even_bounds num den h))
]

half_even-lt : (m num den : ℕ) → 0 < den → 2 * num + den < 2 * (m * den) → half_even num den < m
half_even-lt m num den h l = elim (dec_lt (half_even num den) m) [
  | yes d ↦ d
  | no d ↦
      let p : m * den ≤ half_even num den * den = mul-le-mul (omega arith) (le_refl den) in
      absurd (omega (arith, half_even_bounds num den h))
]

half_even_none : (den : ℕ) → 0 < den → half_even 0 den ≡ 0
half_even_none den h = omega (arith, half_even-lt 1 0 den h (omega arith))

half_even_exact : (m den : ℕ) → 0 < den → half_even (m * den) den ≡ m
half_even_exact m den h = omega (
  arith,
  half_even-ge m (m * den) den h (omega arith),
  half_even-lt (suc m) (m * den) den h (omega arith),
)

shifted_exact : (k m num : ℕ) → m * 2 ^ k ≡ num → half_even num (1 * 2 ^ k) * 2 ^ k ≡ num
shifted_exact k m num e =
    let d : 1 * 2 ^ k ≡ 2 ^ k = omega arith in
    let h : half_even num (2 ^ k) ≡ m = rw⁻¹ e (half_even_exact m (2 ^ k) (two_pow_pos k)) in
    rw (d, h) e

-- What has 53 significant bits is not changed.
pub nearest_exact : (n j : ℕ) → n < 2 ^ 53 → nearest (n * 2 ^ j) 1 ≡ n * 2 ^ j
unfolding nearest
nearest_exact n j h =
    let k = excess (n * 2 ^ j / 1) in
    let small : k ≤ j = excess_shift (n * 2 ^ j / 1) n j h (omega arith) in
    shifted_exact k (n * 2 ^ (j - k)) (n * 2 ^ j)
      (omega (arith, ap (◌*◌ n) (two_pow_split k j small)))

pub nearest_zero : (den : ℕ) → 0 < den → nearest 0 den ≡ 0
unfolding nearest
nearest_zero den h =
    let k = excess (0 / den) in
    let positive : 0 < den * 2 ^ k = mul-pos h (two_pow_pos k) in
    omega (arith, ap (λ m. m * 2 ^ k) (half_even_none (den * 2 ^ k) positive))

-- Of whole numbers below 2 ^ 53, at `u` units each, the quotient is rounded within its whole part.
module _ (d s k u v : ℕ) (positive : 0 < s) (unit : u ≡ v * 2 ^ k) (fine : s * 2 ^ k < 2 * u) where
  quotient_size : 0 < s * u * 2 ^ k
  quotient_size = mul-pos (mul-pos positive (omega arith)) (two_pow_pos k)

  quotient-ge : d / s * v ≤ half_even (d * u * u) (s * u * 2 ^ k)
  quotient-ge =
      let q = d / s in
      let below : q * s ≤ d = div-mul-le_self d s in
      let e : q * v * (s * u * 2 ^ k) ≡ q * s * u * (v * 2 ^ k) = omega arith in
      let l : q * s * u * u ≤ d * u * u = mul-le-mul_right u (mul-le-mul_right u below) in
      half_even-ge (q * v) (d * u * u) (s * u * 2 ^ k) quotient_size
        (omega (arith, ap (◌*◌ (q * s * u)) unit))

  quotient-lt : half_even (d * u * u) (s * u * 2 ^ k) < suc (d / s) * v
  quotient-lt =
      let q = d / s in
      let above : suc d ≤ suc q * s = omega (arith, lt-div-mul-add {a = d} positive) in
      let e : suc q * v * (s * u * 2 ^ k) ≡ suc q * s * u * (v * 2 ^ k) = omega arith in
      let l : suc d * u ≤ suc q * s * u = mul-le-mul_right u above in
      let m : (2 * (d * u) + s * 2 ^ k) * u < 2 * (suc q * s * u) * u =
        mul-lt-mul_of_pos_right (omega arith) (omega arith) in
      half_even-lt (suc q * v) (d * u * u) (s * u * 2 ^ k) quotient_size
        (omega (arith, ap (◌*◌ (suc q * s * u)) unit))

  quotient_floor : half_even (d * u * u) (s * u * 2 ^ k) * 2 ^ k / u ≡ d / s
  quotient_floor =
      let r = half_even (d * u * u) (s * u * 2 ^ k) in
      let low : d / s * v * 2 ^ k ≤ r * 2 ^ k = mul-le-mul_right (2 ^ k) quotient-ge in
      let high : r * 2 ^ k < suc (d / s) * v * 2 ^ k =
        mul-lt-mul_of_pos_right quotient-lt (two_pow_pos k) in
      div-eq_of_lt-le u (omega (arith, ap (◌*◌ (d / s)) unit))
        (omega (arith, ap (◌*◌ (suc (d / s))) unit))

cancel_unit : (d s u : ℕ) → 0 < u → d * u * u / (s * u) ≡ d * u / s
cancel_unit d s u h = mul-div-mul_right (d * u) s h

excess_fine : (d s u : ℕ) → d < 2 ^ 53 → 0 < s → s < 2 * u → s * 2 ^ excess (d * u / s) < 2 * u
excess_fine d s u hd hs hu = elim (excess_le (d * u / s)) [
  | inl z ↦ rw z (omega arith)
  | inr g ↦
      let p : 2 ^ 52 * 2 ^ excess (d * u / s) * s ≤ d * u / s * s = mul-le-mul_right s g in
      let q : suc d * u ≤ 2 ^ 53 * u = mul-le-mul_right u hd in
      omega (arith, div-mul-le_self (d * u) s)
]

-- The quotient of two whole numbers below 2 ^ 53 is rounded within its whole part, so that cutting
-- off the fraction is division without remainder.
pub nearest_floor :
    (d s j : ℕ)
    → d < 2 ^ 53
    → 0 < s
    → s < 2 * 2 ^ j
    → nearest (d * 2 ^ j * 2 ^ j) (s * 2 ^ j) / 2 ^ j ≡ d / s
unfolding nearest
nearest_floor d s j hd hs hj =
    let u = 2 ^ j in
    let k = excess (d * u / s) in
    let small : k ≤ j = excess_shift (d * u / s) d j hd (div-le_self (d * u) s) in
    ap (λ q. half_even (d * u * u) (s * u * 2 ^ excess q) * 2 ^ excess q / u)
      (cancel_unit d s u (two_pow_pos j))
    ∙ quotient_floor d s k u (2 ^ (j - k)) hs (two_pow_split k j small) (excess_fine d s u hd hs hj)
