-- ===== src/Security/Occurrences.antt =====
-- `containsCI` of internal/security/authlog.go against a description of what it looks for.
use monitoring.Base.{
  Bool-cases, length, length-append, Text, suc, ◌≤◌, ◌≡◌, refl, sym, ap, ◌∙◌, inl, inr, true, [],
  ◌∷◌, ◌++◌, map, arith,
}
use monitoring.Tunnel.Names.{lower}
use monitoring.Security.Search.{lower_byte, matches_at, find_ci, contains_ci}

-- The text stands somewhere in the other one, once that is in lower case.
abbrev pub Occurs : Text → Text → Type 0
Occurs sub s = (before : Text) × (after : Text) × (map lower s ≡ before ++ sub ++ after)

map-lower_byte : (s : Text) → map lower_byte s ≡ map lower s
unfolding lower_byte
map-lower_byte [] = refl
map-lower_byte (c ∷ s) = ap (◌∷◌ (lower c)) (map-lower_byte s)

-- The same with the letters as `findCI` lowers them.
abbrev OccursLowered : Text → Text → Type 0
OccursLowered sub s = (before : Text) × (after : Text) × (map lower_byte s ≡ before ++ sub ++ after)

length-map : (s : Text) → length (map lower_byte s) ≡ length s
length-map [] = refl
length-map (c ∷ s) = ap suc (length-map s)

length-Occurs : (sub s : Text) → OccursLowered sub s → length sub ≤ length s
length-Occurs sub s (a, b, e) =
    omega (arith, ap length e, length-map s, length-append (a ++ sub) b, length-append a sub)

-- What stands at the front of a text.
abbrev Starts : Text → Text → Type 0
Starts sub s = (after : Text) × (map lower_byte s ≡ sub ++ after)

matches_at-Starts : (s sub : Text) → matches_at s sub ≡ true → Starts sub s
unfolding matches_at
matches_at-Starts s [] h = (map lower_byte s, refl)
matches_at-Starts [] (b ∷ sub) h = absurd (ground arith)
matches_at-Starts (a ∷ s) (b ∷ sub) h =
    let (after, e) = matches_at-Starts s sub (ground arith) in (after, ground (arith, e))

matches_at-found : (s sub after : Text) → map lower_byte s ≡ sub ++ after → matches_at s sub ≡ true
unfolding matches_at
matches_at-found s [] after e = refl
matches_at-found [] (b ∷ sub) after e = absurd (omega (arith, ap length e))
matches_at-found (a ∷ s) (b ∷ sub) after e = ground (arith, matches_at-found s sub after)

find_ci-Occurs : (s sub : Text) → find_ci s sub ≡ true → OccursLowered sub s
unfolding find_ci
find_ci-Occurs [] sub h = let (after, e) = matches_at-Starts [] sub (ground arith) in ([], after, e)
find_ci-Occurs (c ∷ s) sub h = elim (Bool-cases (matches_at (c ∷ s) sub)) [
  | inl m ↦ let (after, e) = matches_at-Starts (c ∷ s) sub m in ([], after, e)
  | inr m ↦
      let (before, after, e) = find_ci-Occurs s sub (ground arith) in
      (lower_byte c ∷ before, after, ap (◌∷◌ (lower_byte c)) e)
]

find_ci-found :
    (s sub before after : Text) → map lower_byte s ≡ before ++ sub ++ after → find_ci s sub ≡ true
unfolding find_ci
find_ci-found [] sub [] after e =
    ground (arith, length-Occurs sub [] ([], after, e), matches_at-found [] sub after e)
find_ci-found [] sub (x ∷ before) after e = absurd (omega (arith, ap length e))
find_ci-found (c ∷ s) sub [] after e =
    ground (arith, length-Occurs sub (c ∷ s) ([], after, e), matches_at-found (c ∷ s) sub after e)
find_ci-found (c ∷ s) sub (x ∷ before) after e =
    ground
      (arith, length-Occurs sub (c ∷ s) (x ∷ before, after, e), find_ci-found s sub before after)

-- `containsCI` answers true just if the second text, as it stands, occurs in the first one in
-- lower case.
pub contains_ci-Occurs :
    (s sub : Text)
    → ((contains_ci s sub ≡ true) → Occurs sub s) × (Occurs sub s → contains_ci s sub ≡ true)
unfolding contains_ci
contains_ci-Occurs s sub = (
  (λ h.
      let (before, after, e) = find_ci-Occurs s sub (ground arith) in
      (before, after, sym (map-lower_byte s) ∙ e)),
  λ o.
      let (before, after, e) = o in
      let f = map-lower_byte s ∙ e in
      ground (arith, length-Occurs sub s (before, after, f), find_ci-found s sub before after f),
)
