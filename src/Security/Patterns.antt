-- ===== src/Security/Patterns.antt =====
-- internal/security/authlog.go: the three regular expressions. A pattern is matched as the package regexp
-- does: at the leftmost place, and there the first of the ways to match, in which a repetition takes as
-- much as it can.
use monitoring.Base.{
  leb, ◌==◌, if◌then◌else◌, Text, bytes, cut_prefix, is_blank, ℕ, Bool, ◌&&◌, ◌||◌, not, Option,
  none, some, List, [], ◌∷◌, ◌++◌, map,
}
use monitoring.Security.AuthLog.{Match, Moment, Matchers}

pub data Item : Type 0 where
  literal optional : Text → Item
  either : Text → Text → Item
  one many : (ℕ → Bool) → Item

-- `(...)` and what is not in a group
pub data Part : Type 0 where
  group : List Item → Part
  skip : Item → Part

abbrev concat_map : {A B : Type 0} → (A → List B) → List A → List B
concat_map f [] = []
concat_map f (x ∷ xs) = f x ++ concat_map f xs

abbrev after_prefix : Text → Option Text → List (Text × Text)
after_prefix t none = []
after_prefix t (some rest) = (t, rest) ∷ []

abbrev longer : ℕ → Text × Text → Text × Text
longer c (taken, rest) = (c ∷ taken, rest)

-- The fronts of bytes of a class, the longest first.
unfoldable pub fronts : (ℕ → Bool) → Text → List (Text × Text)
fronts class [] = ([], []) ∷ []
fronts class (c ∷ s) =
    let rest = fronts class s in (if class c then map (longer c) rest else []) ++ ([], c ∷ s) ∷ []

-- The ways in which an item takes a front, in the order in which they are tried, with what is left.
unfoldable pub item_ways : Item → Text → List (Text × Text)
unfolding cut_prefix fronts
item_ways (literal t) s = after_prefix t (cut_prefix s t)
item_ways (optional t) s = after_prefix t (cut_prefix s t) ++ ([], s) ∷ []
item_ways (either t u) s = after_prefix t (cut_prefix s t) ++ after_prefix u (cut_prefix s u)
item_ways (one class) [] = []
item_ways (one class) (c ∷ s) = if class c then (c ∷ [], s) ∷ [] else []
item_ways (many class) s = fronts class s

unfoldable pub group_ways : List Item → Text → List (Text × Text)
unfolding item_ways
group_ways [] s = ([], s) ∷ []
group_ways (i ∷ items) s =
    concat_map
      (λ (w : Text × Text). map (λ (v : Text × Text). (w.0 ++ v.0, v.1)) (group_ways items w.1))
      (item_ways i s)

-- The groups of each way to match.
unfoldable pub pattern_ways : List Part → Text → List (List Text)
unfolding item_ways group_ways
pattern_ways [] s = [] ∷ []
pattern_ways (group items ∷ parts) s =
    concat_map (λ (w : Text × Text). map (◌∷◌ w.0) (pattern_ways parts w.1)) (group_ways items s)
pattern_ways (skip i ∷ parts) s =
    concat_map (λ (w : Text × Text). pattern_ways parts w.1) (item_ways i s)

abbrev first_or : {A : Type 0} → List A → Option A → Option A
first_or [] later = later
first_or (x ∷ xs) later = some x

-- `FindStringSubmatch`, without the text of the whole match
unfoldable pub find_submatch : List Part → Text → Option (List Text)
unfolding pattern_ways
find_submatch parts [] = first_or (pattern_ways parts []) none
find_submatch parts (c ∷ s) =
    let later = find_submatch parts s in first_or (pattern_ways parts (c ∷ s)) later

abbrev is_digit : ℕ → Bool
is_digit c = leb b'0' c && leb c b'9'

abbrev is_word : ℕ → Bool
is_word c = is_digit c || ((leb b'A' c && leb c b'Z') || ((leb b'a' c && leb c b'z') || c == b'_'))

abbrev is_dark : ℕ → Bool
is_dark c = not (is_blank c)

abbrev not_newline : ℕ → Bool
not_newline c = not (c == 10)

-- `x+` in front of other items
abbrev some_of : (ℕ → Bool) → List Item → List Item
some_of class items = one class ∷ many class ∷ items

abbrev two_digits : List Item → List Item
two_digits items = one is_digit ∷ one is_digit ∷ items

abbrev colon : Item
colon = literal (bytes ":")

abbrev dot : Item
dot = literal (bytes ".")

-- `(\w{3}\s+\d+\s+\d{2}:\d{2}:\d{2}).*`
abbrev with_stamp : List Part → List Part
with_stamp parts =
    group (
      one is_word
      ∷ one is_word
      ∷ one is_word
      ∷ some_of is_blank (
          some_of is_digit
            (some_of is_blank (two_digits (colon ∷ two_digits (colon ∷ two_digits []))))))
    ∷ skip (many not_newline)
    ∷ parts

-- `(\S+) from (\d+\.\d+\.\d+\.\d+) port (\d+)`
abbrev user_and_source : List Part
user_and_source =
    group (some_of is_dark [])
    ∷ skip (literal (bytes " from "))
    ∷ group (
        some_of is_digit
          (dot ∷ some_of is_digit (dot ∷ some_of is_digit (dot ∷ some_of is_digit []))))
    ∷ skip (literal (bytes " port "))
    ∷ group (some_of is_digit [])
    ∷ []

abbrev pub failed_pattern : List Part
failed_pattern = with_stamp (
    skip (literal (bytes "Failed password for "))
    ∷ skip (optional (bytes "invalid user "))
    ∷ user_and_source)

abbrev pub accepted_pattern : List Part
accepted_pattern = with_stamp (
    skip (literal (bytes "Accepted "))
    ∷ skip (either (bytes "password") (bytes "publickey"))
    ∷ skip (literal (bytes " for "))
    ∷ user_and_source)

abbrev pub invalid_pattern : List Part
invalid_pattern = with_stamp (skip (literal (bytes "Invalid user ")) ∷ user_and_source)

-- Every pattern has four groups.
abbrev match_of : List Text → Option Match
match_of (stamp ∷ user ∷ ip ∷ port ∷ []) =
    some (record { stamp = stamp; user = user; ip = ip; port = port })
match_of _ = none

abbrev groups_of : Option (List Text) → Option Match
groups_of none = none
groups_of (some groups) = match_of groups

-- The expressions of the file, with the functions of the package time.
unfoldable pub auth_matchers : (Text → Text → Option Moment) → (ℕ → Moment → ℕ) → (ℕ → ℕ) → Matchers
unfolding find_submatch
auth_matchers parse_time date year_of = record {
  failed = λ line. groups_of (find_submatch failed_pattern line);
  accepted = λ line. groups_of (find_submatch accepted_pattern line);
  invalid = λ line. groups_of (find_submatch invalid_pattern line);
  parse_time = parse_time;
  date = date;
  year_of = year_of;
}
