-- ===== src/Smoke/Upgrade/Pattern.antt =====
-- The regular expressions of tools/upgrade_smoke.py. Each `\d+` stands before a character that is no
-- digit, so the longest run of digits is the only one that can match.
use orochi.Prelude.{
  ℕ, ◌+◌, ◌-◌, ◌*◌, Bool, Option, none, some, List, [], ◌∷◌, leb, ◌&&◌, ◌||◌, if◌then◌else◌,
}
use orochi.Text.{Text, text, is_empty, is_digit, drop_prefix}

-- A literal, or `(\d+)`.
pub data Piece : Type 0 where
  lit : Text → Piece
  num : Piece

-- The digits at the start, and the rest.
unfoldable pub digits : Text → Text × Text
digits [] = ([], [])
digits (c ∷ s) = let (d, r) = digits s in if is_digit c then (c ∷ d, r) else ([], c ∷ s)

-- `int` of digits, after a number that stands before them.
unfoldable pub value : ℕ → Text → ℕ
value n [] = n
value n (c ∷ s) = value (n * 10 + (c - b'0')) s

abbrev and_number : ℕ → Option (List ℕ) → Option (List ℕ)
and_number n none = none
and_number n (some ns) = some (n ∷ ns)

-- The numbers of a match at the start of the text.
unfoldable pub match_at : List Piece → Text → Option (List ℕ)
unfolding drop_prefix digits value
match_at [] s = some []
match_at (lit t ∷ ps) s = elim (drop_prefix t s) [ none ↦ none | some r ↦ match_at ps r ]
match_at (num ∷ ps) s =
    let (d, r) = digits s in
    let rest = match_at ps r in if is_empty d then none else and_number (value 0 d) rest

abbrev and_match : Option (List ℕ) → List (List ℕ) → List (List ℕ)
and_match none ms = ms
and_match (some ns) ms = ns ∷ ms

-- `re.findall`: no match of these patterns begins within another.
unfoldable pub find_all : List Piece → Text → List (List ℕ)
unfolding match_at
find_all ps [] = []
find_all ps (c ∷ s) = and_match (match_at ps (c ∷ s)) (find_all ps s)

-- `re.search`
abbrev pub first_match : List (List ℕ) → Option (List ℕ)
first_match [] = none
first_match (m ∷ ms) = some m

abbrev is_hex : ℕ → Bool
is_hex c = is_digit c || (leb b'a' c && leb c b'f' || leb b'A' c && leb c b'F')

unfoldable pub hex_run : Text → Text
hex_run [] = []
hex_run (c ∷ s) = let r = hex_run s in if is_hex c then c ∷ r else []

abbrev token_at : Option Text → Option Text
token_at none = none
token_at (some r) = let run = hex_run r in if is_empty run then none else some run

abbrev either_token : Option Text → Option Text → Option Text
either_token none later = later
either_token (some t) later = some t

-- `re.search(r"SESSION TOKEN ([0-9a-fA-F]+)", s).group(1)`
unfoldable pub token_in : Text → Option Text
unfolding drop_prefix hex_run
token_in [] = none
token_in (c ∷ s) =
    either_token (token_at (drop_prefix (text "SESSION TOKEN ") (c ∷ s))) (token_in s)
