-- ===== src/Security/Updates.antt =====
-- `checkPendingUpdates` of internal/security/authlog.go: its counts, against a search in the lower-case
-- lines.
use monitoring.Base.{
  is_some, length, count, Text, bytes, cut_prefix, tokens, ℤ, pos, negsuc, ◌≤◌, ◌≡◌, refl, ap, Bool,
  true, Option, none, some, List, [], ◌∷◌, map, arith,
}
use monitoring.Tunnel.Names.{contains, lower}
use monitoring.Security.Search.{lower_byte, matches_at, find_ci, contains_ci, check_pending_updates}

-- Whether a line speaks of security, in any case of the letters.
abbrev pub names_security : Text → Bool
names_security line = contains (map lower line) (bytes "security")

matches_at-cut_prefix : (s sub : Text) → matches_at s sub ≡ is_some (cut_prefix (map lower s) sub)
unfolding matches_at cut_prefix lower_byte
matches_at-cut_prefix [] [] = refl
matches_at-cut_prefix (a ∷ s) [] = refl
matches_at-cut_prefix [] (b ∷ sub) = refl
matches_at-cut_prefix (a ∷ s) (b ∷ sub) = ground (arith, matches_at-cut_prefix s sub)

-- A text that is found is no longer than the other.
cut_prefix-le :
    (s sub : Text) → is_some (cut_prefix (map lower s) sub) ≡ true → length sub ≤ length s
unfolding cut_prefix
cut_prefix-le s [] h = omega arith
cut_prefix-le [] (b ∷ sub) h = cc
cut_prefix-le (a ∷ s) (b ∷ sub) h = ground (arith, cut_prefix-le s sub)

contains-le : (s sub : Text) → contains (map lower s) sub ≡ true → length sub ≤ length s
unfolding contains
contains-le [] sub h = cut_prefix-le [] sub h
contains-le (c ∷ s) sub h = ground (arith, cut_prefix-le (c ∷ s) sub, contains-le s sub)

find_ci-contains : (s sub : Text) → find_ci s sub ≡ contains (map lower s) sub
unfolding find_ci contains
find_ci-contains [] sub = ground (arith, matches_at-cut_prefix [] sub, cut_prefix-le [] sub)
find_ci-contains (c ∷ s) sub =
    ground
      (arith, find_ci-contains s sub, matches_at-cut_prefix (c ∷ s) sub, contains-le (c ∷ s) sub)

contains_ci-contains : (s sub : Text) → contains_ci s sub ≡ contains (map lower s) sub
unfolding contains_ci
contains_ci-contains s sub = ground (arith, find_ci-contains s sub, contains-le s sub)

count-names_security :
    (lines : List Text)
    → count (λ line. contains_ci line (bytes "security")) lines ≡ count names_security lines
count-names_security [] = refl
count-names_security (l ∷ lines) =
    rw (contains_ci-contains l (bytes "security"), count-names_security lines) refl

-- The counts for what apt-get prints: -1 where it cannot be run, and the lines that the scanner yields,
-- all of them and those that speak of security.
abbrev pub update_counts : Option (List Text) → ℤ × ℤ
update_counts none = (negsuc 0, negsuc 0)
update_counts (some out) = (pos (length (tokens out)), pos (count names_security (tokens out)))

pub check_pending_updates-counts :
    (out : Option (List Text)) → check_pending_updates out ≡ update_counts out
unfolding check_pending_updates
check_pending_updates-counts none = refl
check_pending_updates-counts (some out) =
    ap (λ n. (pos (length (tokens out)), pos n)) (count-names_security (tokens out))
