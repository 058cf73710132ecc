-- ===== src/Base/Rounding.antt =====
-- Rounding to the 53 significant bits of a float64, half to even, of numbers that are not negative.
use Prim.Native.Nat.{ℕ, zero, suc, ◌+◌, ◌-◌, ◌*◌, ◌/◌, ◌%◌, ◌^◌, ◌<◌, ◌≤◌}
use mathlib.Core.Path.{◌≡◌, refl, ap, ◌∙◌}
use mathlib.Core.Logic.{◌⊎◌, inl, inr, dite, dif_pos, dif_neg}
use mathlib.Core.WellFounded.{Acc, Acc-prop}
use native.Mathlib.Nat.{le_refl, pow-le-pow_right, one-le-pow, pow-suc, mul-le-mul, div-add-mod'}
use native.Mathlib.Bridge.{le_prop}
use native.Mathlib.Omega.{arith}
unfoldable use native.Mathlib.Decide.{dec_lt, dec_le}
use monitoring.Base.Tests.{ltb, ◌==◌, if◌then◌else◌}
use monitoring.Base.Order.{lt_wf}

-- The whole number nearest to `num / den`, the even one of two.
unfoldable pub half_even : ℕ → ℕ → ℕ
half_even num den =
    let q = num / den in
    let r = num % den in
    if ltb (2 * r) den
    then q
    else if ltb den (2 * r)
    then q + 1
    else if q % 2 == 0
    then q
    else q + 1

half_lt : (q : ℕ) → ¬ (q < 2 ^ 53) → q / 2 < q
half_lt q h = omega arith

excess_acc : (q : ℕ) → Acc ◌<◌ q → ℕ
excess_acc q (Acc.intro _ smaller) =
    dite (dec_lt q (2 ^ 53)) (λ h. 0)
      (λ h. suc (excess_acc (q / 2) (smaller (q / 2) (half_lt q h))))

-- How many bits of `q` are more than 53.
unfoldable pub excess : ℕ → ℕ
unfolding excess_acc lt_wf dec_lt half_lt
excess q = excess_acc q (lt_wf.apply q)

-- The multiple of a power of two with 53 significant bits that is nearest to `num / den`.
unfoldable pub nearest : ℕ → ℕ → ℕ
nearest num den = let k = excess (num / den) in half_even num (den * 2 ^ k) * 2 ^ k

-- Of the four outcomes the quotient and the next number, with what decides between them.
half_even-cases :
    (num den : ℕ)
    → ((half_even num den ≡ num / den) × (2 * (num % den) ≤ den))
      ⊎ ((half_even num den ≡ num / den + 1) × (den ≤ 2 * (num % den)))
unfolding half_even
half_even-cases num den = ground arith

pub half_even_bounds :
    (num den : ℕ)
    → 0 < den
    → (2 * (half_even num den * den) ≤ 2 * num + den)
      × (2 * num ≤ 2 * (half_even num den * den) + den)
half_even_bounds num den h =
    let e = div-add-mod' num den in
    let l : num % den < den = omega arith in
    elim (half_even-cases num den) [
      | inl (p, r) ↦ rw p (omega arith, omega arith)
      | inr (p, r) ↦ rw p (grind arith, grind arith)
    ]

excess_acc-small : (q : ℕ) (w : Acc ◌<◌ q) → q < 2 ^ 53 → excess_acc q w ≡ 0
unfolding excess_acc
excess_acc-small q (Acc.intro _ smaller) h = rw (dif_pos (dec_lt q (2 ^ 53)) le_prop h) refl

excess_acc-large :
    (q : ℕ) (w : Acc ◌<◌ q) (v : Acc ◌<◌ (q / 2))
    → ¬ (q < 2 ^ 53)
    → excess_acc q w ≡ suc (excess_acc (q / 2) v)
unfolding excess_acc
excess_acc-large q (Acc.intro _ smaller) v h =
    rw (dif_neg (dec_lt q (2 ^ 53)) h) (rw (Acc-prop (smaller (q / 2) (half_lt q h)) v) refl)

excess_acc-le : (q : ℕ) (w : Acc ◌<◌ q) → (excess_acc q w ≡ 0) ⊎ (2 ^ 52 * 2 ^ excess_acc q w ≤ q)
excess_acc-le q (Acc.intro _ smaller) = elim (dec_lt q (2 ^ 53)) [
  | yes h ↦ inl (excess_acc-small q _ h)
  | no h ↦
      let e = excess_acc-large q (Acc.intro q smaller) (smaller (q / 2) (half_lt q h)) h in
      elim (excess_acc-le (q / 2) (smaller (q / 2) (half_lt q h))) [
        | inl z ↦ inr (rw (e, z) (omega arith))
        | inr g ↦ inr (rw e (omega arith))
      ]
]

pub excess_le : (q : ℕ) → (excess q ≡ 0) ⊎ (2 ^ 52 * 2 ^ excess q ≤ q)
unfolding excess
excess_le q = excess_acc-le q (lt_wf.apply q)

pub excess-small : (q : ℕ) → q < 2 ^ 53 → excess q ≡ 0
unfolding excess
excess-small q = excess_acc-small q (lt_wf.apply q)

pub two_pow_pos : (j : ℕ) → 0 < 2 ^ j
two_pow_pos j = one-le-pow j 2 (omega arith)

two_pow-step : (j : ℕ) → 2 ^ (j + 1) ≡ 2 ^ j * 2
two_pow-step j = ap (◌^◌ 2) (omega arith) ∙ pow-suc 2 j

-- A number with 53 bits that is shifted by `j` loses at most `j` of them.
pub excess_shift : (q n j : ℕ) → n < 2 ^ 53 → q ≤ n * 2 ^ j → excess q ≤ j
excess_shift q n j h l = elim (excess_le q) [
  | inl z ↦ omega arith
  | inr g ↦ elim (dec_le (excess q) j) [
    | yes d ↦ d
    | no d ↦
        let p : 2 ^ (j + 1) ≤ 2 ^ excess q = pow-le-pow_right (omega arith) (omega arith) in
        let m : suc n * 2 ^ j ≤ 2 ^ 53 * 2 ^ j = mul-le-mul h (le_refl (2 ^ j)) in
        absurd (omega (arith, two_pow_pos j, two_pow-step j))
  ]
]

two_pow_add : (d k : ℕ) → 2 ^ (d + k) ≡ 2 ^ d * 2 ^ k
two_pow_add d zero = let e : d + 0 ≡ d = omega arith in rw e (omega arith)
two_pow_add d (suc k) =
    let e : d + suc k ≡ suc (d + k) = omega arith in
    rw (e, pow-suc 2 (d + k), pow-suc 2 k, two_pow_add d k) (omega arith)

pub two_pow_split : (k j : ℕ) → k ≤ j → 2 ^ j ≡ 2 ^ (j - k) * 2 ^ k
two_pow_split k j h = let e : j ≡ (j - k) + k = omega arith in ap (◌^◌ 2) e ∙ two_pow_add (j - k) k
