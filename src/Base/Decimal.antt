-- ===== src/Base/Decimal.antt =====
-- `%d` of the package fmt, for a number that is not negative.
use Prim.Native.Nat.{ℕ, ◌+◌, ◌-◌, ◌*◌, ◌/◌, ◌%◌, ◌<◌, ◌≤◌}
use mathlib.Core.Path.{◌≡◌, refl, ap, sym, ◌∙◌}
use mathlib.Core.Logic.{dite, dif_pos, dif_neg}
use mathlib.Core.List.{[], ◌∷◌, ◌++◌}
use mathlib.Core.WellFounded.{Acc, Acc-prop}
use native.Mathlib.Bridge.{le_prop}
use native.Mathlib.Omega.{arith}
unfoldable use native.Mathlib.Decide.{dec_lt}
use monitoring.Base.Bytes.{Text}
use monitoring.Base.Order.{lt_wf}

tenth_lt : (n : ℕ) → ¬ (n < 10) → n / 10 < n
tenth_lt n h = omega arith

digits_acc : (n : ℕ) → Acc ◌<◌ n → Text
digits_acc n (Acc.intro _ smaller) =
    dite (dec_lt n 10) (λ h. (b'0' + n) ∷ [])
      (λ h. digits_acc (n / 10) (smaller (n / 10) (tenth_lt n h)) ++ (b'0' + n % 10) ∷ [])

unfoldable pub decimal : ℕ → Text
unfolding digits_acc lt_wf dec_lt tenth_lt
decimal n = digits_acc n (lt_wf.apply n)

digits_acc_step :
    (n : ℕ) (w : Acc ◌<◌ n) (v : Acc ◌<◌ (n / 10))
    → ¬ (n < 10)
    → digits_acc n w ≡ digits_acc (n / 10) v ++ (b'0' + n % 10) ∷ []
unfolding digits_acc
digits_acc_step n (Acc.intro _ smaller) v h =
    rw (dif_neg (dec_lt n 10) h) (rw (Acc-prop (smaller (n / 10) (tenth_lt n h)) v) refl)

digits_acc_digit : (n : ℕ) (w : Acc ◌<◌ n) → n < 10 → digits_acc n w ≡ (b'0' + n) ∷ []
unfolding digits_acc
digits_acc_digit n (Acc.intro _ smaller) h = rw (dif_pos (dec_lt n 10) le_prop h) refl

-- The last digit of a numeral of two digits at least.
pub decimal_step : (n : ℕ) → 10 ≤ n → decimal n ≡ decimal (n / 10) ++ (b'0' + n % 10) ∷ []
unfolding decimal
decimal_step n h = digits_acc_step n (lt_wf.apply n) (lt_wf.apply (n / 10)) (omega arith)

pub decimal_digit : (n : ℕ) → n < 10 → decimal n ≡ (b'0' + n) ∷ []
unfolding decimal
decimal_digit n h = digits_acc_digit n (lt_wf.apply n) h

-- The number that a row of digits spells, after the digits `acc`.
unfoldable pub read_from : ℕ → Text → ℕ
read_from acc [] = acc
read_from acc (c ∷ s) = read_from (acc * 10 + (c - b'0')) s

pub read_from-snoc :
    (acc : ℕ) (s : Text) (c : ℕ) → read_from acc (s ++ c ∷ []) ≡ read_from acc s * 10 + (c - b'0')
unfolding read_from
read_from-snoc acc [] c = refl
read_from-snoc acc (d ∷ s) c = read_from-snoc (acc * 10 + (d - b'0')) s c

read-digits_acc : (n : ℕ) (w : Acc ◌<◌ n) → read_from 0 (digits_acc n w) ≡ n
unfolding digits_acc
read-digits_acc n (Acc.intro _ smaller) = elim (dec_lt n 10) [
  | yes h ↦ rw (dif_pos (dec_lt n 10) le_prop h) (unfold read_from in omega arith)
  | no h ↦ rw (dif_neg _ h) (
      rw read_from-snoc (omega (arith, read-digits_acc (n / 10) (smaller (n / 10) (tenth_lt n h)))))
]

pub read-decimal : (n : ℕ) → read_from 0 (decimal n) ≡ n
unfolding decimal
read-decimal n = read-digits_acc n (lt_wf.apply n)

pub decimal-injective : (m n : ℕ) → decimal m ≡ decimal n → m ≡ n
decimal-injective m n e = sym (read-decimal m) ∙ ap (read_from 0) e ∙ read-decimal n
