-- ===== src/Tunnel/Names.antt =====
-- internal/tunnel/tunnel.go: how a process is told by its name, and the version in the output of the
-- command. Of the letters of "cloudflared" only the ASCII capitals have them as their lower case.
use monitoring.Base.{
  leb, if◌then◌else◌, is_some, Text, bytes, cut_prefix, is_blank, ℕ, ◌+◌, Bool, ◌&&◌, ◌||◌, Option,
  none, some, [], ◌∷◌, map,
}

-- `strings.Contains`
unfoldable pub contains : Text → Text → Bool
unfolding cut_prefix
contains [] sub = is_some (cut_prefix [] sub)
contains (c ∷ s) sub = let rest = contains s sub in is_some (cut_prefix (c ∷ s) sub) || rest

-- `strings.ToLower`, on a byte
abbrev pub lower : ℕ → ℕ
lower c = if leb b'A' c && leb c b'Z' then c + 32 else c

unfoldable pub is_cloudflared : Text → Bool
unfolding contains
is_cloudflared name = contains (map lower name) (bytes "cloudflared")

-- The greatest front without spaces.
unfoldable pub word_front : Text → Text
word_front [] = []
word_front (c ∷ s) = let rest = word_front s in if is_blank c then [] else c ∷ rest

abbrev first_group : Option Text → Option Text → Option Text
first_group none later = later
first_group (some s) later = elim (word_front s) [ [] ↦ later | c ∷ v ↦ some (c ∷ v) ]

-- The group of the first match of `cloudflared version ([^\s]+)`
unfoldable pub version_in : Text → Option Text
unfolding cut_prefix word_front
version_in [] = none
version_in (c ∷ s) =
    let later = version_in s in
    first_group (cut_prefix (c ∷ s) (bytes "cloudflared version ")) later
