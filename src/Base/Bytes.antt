-- ===== src/Base/Bytes.antt =====
-- Go strings as the lists of their bytes; the literals of the source are ASCII.
use Prim.Native.Nat.{ℕ}
use Prim.Native.Char.{code}
use Prim.Native.String.{String}
use mathlib.Core.Path.{◌≡◌, refl, ap₂}
use mathlib.Core.List.{List, [], ◌∷◌}
use mathlib.Core.Bool.{Bool, ◌||◌}
use mathlib.Core.Option.{Option, none, some}
use monitoring.Base.Tests.{◌==◌, if◌then◌else◌}
unfoldable use native.Mathlib.Decide.{ℕ_discrete}

abbrev pub Text : Type 0
Text = List ℕ

abbrev pub bytes : String → Text
bytes String.[] = []
bytes (String.◌∷◌ c s) = code c ∷ bytes s

cons_dec : {a b : ℕ} {s t : Text} → Dec (a ≡ b) → Dec (s ≡ t) → Dec (◌≡◌ {A = Text} (a ∷ s) (b ∷ t))
cons_dec (yes p) (yes q) = yes (ap₂ ◌∷◌ p q)
cons_dec (yes p) (no q) = no (λ e. q (cc))
cons_dec (no p) d = no (λ e. p (cc))

-- `s == t` on strings.
unfoldable pub text_discrete : Discrete Text
unfolding cons_dec ℕ_discrete
text_discrete [] [] = yes refl
text_discrete [] (b ∷ t) = no (λ e. cc)
text_discrete (a ∷ s) [] = no (λ e. cc)
text_discrete (a ∷ s) (b ∷ t) = cons_dec (ℕ_discrete a b) (text_discrete s t)

-- What comes behind a text that another one starts with.
unfoldable pub cut_prefix : Text → Text → Option Text
cut_prefix s [] = some s
cut_prefix [] (b ∷ prefix) = none
cut_prefix (a ∷ s) (b ∷ prefix) = let rest = cut_prefix s prefix in if a == b then rest else none

-- The class `\s` of the package regexp, which has no vertical tab.
abbrev pub is_blank : ℕ → Bool
is_blank c = c == 32 || (c == 9 || (c == 10 || (c == 12 || c == 13)))
