-- ===== src/Config/Names.antt =====
-- The flag `--services` of internal/config/config.go: names with commas between them, and any number of
-- spaces around them.
use mathlib.Core.Path.{ap₂}
use monitoring.Base.{
  keep, All, All-append, All-imp, Text, ℕ, zero, suc, ◌<◌, ◌≡◌, refl, ap, ◌∙◌, ◌≢◌, Bool, true,
  false, Option, none, some, List, [], ◌∷◌, ◌++◌, map, arith,
}
use monitoring.Config.{
  Config, set_basic_auth, split_comma, is_space, trim_left, keep_unless_blank, trim_right, is_name,
  trim_space, set_services, Flags, config_of, parse_flags,
}

unfoldable pub spaces : ℕ → Text
spaces zero = []
spaces (suc n) = b' ' ∷ spaces n

-- A name with the spaces before and behind it.
pub record Piece : Type 0 where
  pub before : ℕ
  pub name : Text
  pub after : ℕ

abbrev pub piece_text : Piece → Text
piece_text p = spaces p.before ++ (p.name ++ spaces p.after)

-- The pieces with commas between them.
unfoldable pub join_comma : Piece → List Piece → Text
join_comma p [] = piece_text p
join_comma p (q ∷ rest) = piece_text p ++ (b',' ∷ join_comma q rest)

abbrev pub IsLetter : ℕ → Type 0
IsLetter c = (is_space c ≡ false) × (c ≢ b',') × (c < 128)

-- A name has a byte, all are ASCII, and none is a comma or a space.
abbrev pub IsProper : Piece → Type 0
IsProper p = (is_name p.name ≡ true) × All IsLetter p.name

abbrev NoComma : Text → Type 0
NoComma s = All (λ (c : ℕ). c ≢ b',') s

spaces-NoComma : (n : ℕ) → NoComma (spaces n)
unfolding spaces
spaces-NoComma zero = tt
spaces-NoComma (suc n) = ((λ e. omega arith), spaces-NoComma n)

piece-NoComma : (p : Piece) → IsProper p → NoComma (piece_text p)
piece-NoComma p h =
    All-append _ (spaces p.before) (p.name ++ spaces p.after) (spaces-NoComma p.before) (
      All-append _ p.name (spaces p.after) (All-imp _ _ p.name (λ c k. k.1) h.1)
        (spaces-NoComma p.after))

split_comma-last : (s : Text) → NoComma s → split_comma s ≡ s ∷ []
unfolding split_comma
split_comma-last [] h = refl
split_comma-last (c ∷ s) h = ground (arith, h.0, split_comma-last s h.1)

split_comma-first :
    (s rest : Text) → NoComma s → split_comma (s ++ (b',' ∷ rest)) ≡ s ∷ split_comma rest
unfolding split_comma
split_comma-first [] rest h = refl
split_comma-first (c ∷ s) rest h = ground (arith, h.0, split_comma-first s rest h.1)

trim_left-spaces : (n : ℕ) (s : Text) → trim_left (spaces n ++ s) ≡ trim_left s
unfolding spaces
trim_left-spaces zero s = refl
trim_left-spaces (suc n) s = trim_left-spaces n s

trim_right-spaces : (n : ℕ) → trim_right (spaces n) ≡ []
unfolding spaces
trim_right-spaces zero = refl
trim_right-spaces (suc n) = rw (trim_right-spaces n) refl

kept_byte : (c : ℕ) (s : Text) → is_space c ≡ false → keep_unless_blank c s ≡ c ∷ s
kept_byte c [] h = rw h refl
kept_byte c (d ∷ s) h = refl

trim_right-name : (s : Text) (n : ℕ) → All IsLetter s → trim_right (s ++ spaces n) ≡ s
trim_right-name [] n h = trim_right-spaces n
trim_right-name (c ∷ s) n h = rw (trim_right-name s n h.1) (kept_byte c s h.0.0)

trim_left-name :
    (s rest : Text) → is_name s ≡ true → All IsLetter s → trim_left (s ++ rest) ≡ s ++ rest
trim_left-name [] rest f h = cc
trim_left-name (c ∷ s) rest f h = rw (h.0.0) refl

trim_space-piece : (p : Piece) → IsProper p → trim_space (piece_text p) ≡ p.name
unfolding trim_space
trim_space-piece p h =
    ap trim_right (
      trim_left-spaces p.before (p.name ++ spaces p.after)
      ∙ trim_left-name p.name (spaces p.after) h.0 h.1)
    ∙ trim_right-name p.name p.after h.1

abbrev pub names_of : List Piece → List Text
names_of ps = map (λ (p : Piece). p.name) ps

trimmed-join_comma :
    (p : Piece) (rest : List Piece)
    → All IsProper (p ∷ rest)
    → map trim_space (split_comma (join_comma p rest)) ≡ names_of (p ∷ rest)
unfolding join_comma
trimmed-join_comma p [] h =
    rw (split_comma-last (piece_text p) (piece-NoComma p h.0), trim_space-piece p h.0) refl
trimmed-join_comma p (q ∷ rest) h =
    ap (map trim_space) (split_comma-first (piece_text p) (join_comma q rest) (piece-NoComma p h.0))
    ∙ ap₂ ◌∷◌ (trim_space-piece p h.0) (trimmed-join_comma q rest h.1)

keep-names : (ps : List Piece) → All IsProper ps → keep is_name (names_of ps) ≡ names_of ps
keep-names [] h = refl
keep-names (p ∷ ps) h = rw (h.0.0, keep-names ps h.1) refl

is_name-append : (s t : Text) → is_name t ≡ true → is_name (s ++ t) ≡ true
is_name-append [] t h = h
is_name-append (c ∷ s) t h = refl

append-is_name : (s t : Text) → is_name s ≡ true → is_name (s ++ t) ≡ true
append-is_name [] t h = cc
append-is_name (c ∷ s) t h = refl

piece-is_name : (p : Piece) → IsProper p → is_name (piece_text p) ≡ true
piece-is_name p h =
    is_name-append (spaces p.before) (p.name ++ spaces p.after)
      (append-is_name p.name (spaces p.after) h.0)

join_comma-is_name :
    (p : Piece) (rest : List Piece) → IsProper p → is_name (join_comma p rest) ≡ true
unfolding join_comma
join_comma-is_name p [] h = piece-is_name p h
join_comma-is_name p (q ∷ rest) h = append-is_name (piece_text p) _ (piece-is_name p h)

set_services-name :
    (s : Text) (c : Config)
    → is_name s ≡ true
    → set_services s c
      ≡ record c { services = c.services ++ keep is_name (map trim_space (split_comma s)) }
unfolding set_services
set_services-name [] c h = cc
set_services-name (b ∷ s) c h = refl

module _ (hash : Text → Option Text) (made : Text → Bool) where
  -- Let `--services` be some names, each not empty, of ASCII characters and without commas and
  -- spaces, with commas between them and any number of spaces around each; let there be no
  -- `--basic-auth`, and let the data directory be made. Then the configuration has just those
  -- names, in order, authentication is off, and the other fields are the flags.
  pub parse_flags-names :
      (f : Flags) (p : Piece) (rest : List Piece)
      → All IsProper (p ∷ rest)
      → made f.data_dir ≡ true
      → parse_flags hash made (record f { basic_auth = []; services = join_comma p rest })
        ≡ some (record {
          host = f.host;
          port = f.port;
          data_dir = f.data_dir;
          basic_auth_user = [];
          basic_auth_hash = none;
          services = names_of (p ∷ rest);
          log_level = f.log_level;
        })
  unfolding parse_flags set_basic_auth
  parse_flags-names f p rest h e =
      rw
        (
          e,
          set_services-name (join_comma p rest) (config_of f) (join_comma-is_name p rest h.0),
          trimmed-join_comma p rest h,
          keep-names (p ∷ rest) h,
        )
        refl
