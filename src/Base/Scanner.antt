-- ===== src/Base/Scanner.antt =====
-- `bufio.Scanner` of the language's library, over lines: a line of 64 KB or more does not fit its buffer,
-- and ends the scan with an error.
use Prim.Native.Nat.{ℕ, suc, ◌+◌, ◌*◌}
use mathlib.Core.Path.{◌≡◌, refl}
use mathlib.Core.Bool.{Bool, true}
use mathlib.Core.Option.{Option, none, some}
use mathlib.Core.List.{List, [], ◌∷◌}
use monitoring.Base.Tests.{ltb, if◌then◌else◌}
use monitoring.Base.Lists.{length, All}
use monitoring.Base.Bytes.{Text}

abbrev pub token_limit : ℕ
token_limit = 64 * 1024

-- A line fits if its end is among the bytes of a full buffer.
unfoldable pub fits : Text → Bool
fits line = ltb (length line) token_limit

abbrev pub Fits : Text → Type 0
Fits line = fits line ≡ true

-- The lines that the scanner yields.
unfoldable pub tokens : List Text → List Text
tokens [] = []
tokens (line ∷ rest) = let more = tokens rest in if fits line then line ∷ more else []

abbrev pub behind : ℕ → Option ℕ → Option ℕ
behind n none = none
behind n (some k) = some (n + k)

-- How many bytes were read when a line did not fit: those before it, and a full buffer.
unfoldable pub stop_at : List Text → Option ℕ
stop_at [] = none
stop_at (line ∷ rest) =
    let later = stop_at rest in
    if fits line then behind (suc (length line)) later else some token_limit

pub tokens-all : (lines : List Text) → All Fits lines → tokens lines ≡ lines
unfolding tokens
tokens-all [] h = refl
tokens-all (line ∷ rest) h = rw (h.0, tokens-all rest h.1) refl

pub stop_at-none : (lines : List Text) → All Fits lines → stop_at lines ≡ none
unfolding stop_at
stop_at-none [] h = refl
stop_at-none (line ∷ rest) h = rw (h.0, stop_at-none rest h.1) refl
