-- ===== src/Security/Search.antt =====
-- internal/security/authlog.go: `containsCI`, `findCI` and the count of pending updates.
use monitoring.Base.{
  ltb, leb, ◌==◌, if◌then◌else◌, length, count, Text, bytes, tokens, ℤ, pos, negsuc, ℕ, ◌+◌, Bool,
  true, false, ◌&&◌, Option, none, some, List, [], ◌∷◌,
}

unfoldable pub lower_byte : ℕ → ℕ
lower_byte a = if leb b'A' a && leb a b'Z' then a + 32 else a

-- The inner loop: whether `sub` stands at the front of `s`.
unfoldable pub matches_at : Text → Text → Bool
matches_at s [] = true
matches_at [] (b ∷ sub) = false
matches_at (a ∷ s) (b ∷ sub) =
    let rest = matches_at s sub in if lower_byte a == b then rest else false

-- The outer loop, over the suffixes of `s` that are long enough.
unfoldable pub find_ci : Text → Text → Bool
find_ci [] sub = if ltb 0 (length sub) then false else matches_at [] sub
find_ci (c ∷ s) sub =
    let rest = find_ci s sub in
    if ltb (length (c ∷ s)) (length sub)
    then false
    else if matches_at (c ∷ s) sub
    then true
    else rest

unfoldable pub contains_ci : Text → Text → Bool
unfolding find_ci
contains_ci s sub = leb (length sub) (length s) && find_ci s sub

-- `checkPendingUpdates`: the lines that apt-get prints, none where it cannot be run. The error of the
-- scanner is dropped.
unfoldable pub check_pending_updates : Option (List Text) → ℤ × ℤ
unfolding contains_ci tokens
check_pending_updates none = (negsuc 0, negsuc 0)
check_pending_updates (some out) =
    let lines = tokens out in
    (pos (length lines), pos (count (λ line. contains_ci line (bytes "security")) lines))
