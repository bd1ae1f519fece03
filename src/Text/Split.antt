-- ===== src/Text/Split.antt =====
-- Python's `split`, `partition` and `splitlines`, and the white-space clean-up of a line.
use orochi.Prelude.{
  ℕ, Bool, true, false, ◌||◌, ◌&&◌, Option, none, some, List, [], ◌∷◌, ◌++◌, ◌==◌, leb,
  if◌then◌else◌, length, drop,
}
use orochi.Text.{Text, is_space, starts_with, strip}

abbrev pub emit_word : Text → List Text → List Text
emit_word [] rest = rest
emit_word (c ∷ w) rest = (c ∷ w) ∷ rest

-- The words of `cur` followed by the second text.
unfoldable pub words_from : Text → Text → List Text
unfolding is_space
words_from cur [] = emit_word cur []
words_from cur (c ∷ s) = elim (is_space c) [
  | true ↦ emit_word cur (words_from [] s)
  | false ↦ words_from (cur ++ c ∷ []) s
]

-- `s.split()`
unfoldable pub words : Text → List Text
unfolding words_from
words s = words_from [] s

abbrev pub push_char : ℕ → List Text → List Text
push_char c [] = (c ∷ []) ∷ []
push_char c (p ∷ r) = (c ∷ p) ∷ r

-- `s.split(sep)` for a separator of one character.
unfoldable pub split_on : ℕ → Text → List Text
split_on sep [] = [] ∷ []
split_on sep (c ∷ s) = let r = split_on sep s in if c == sep then [] ∷ r else push_char c r

abbrev pub after_char : ℕ → Option (Text × Text) → Option (Text × Text)
after_char c none = none
after_char c (some (a, b)) = some (c ∷ a, b)

-- The text before and behind the first occurrence of `sep`, as `s.split(sep, 1)` and
-- `s.partition(sep)` give them; `none` where there is no occurrence.
unfoldable pub cut : Text → Text → Option (Text × Text)
unfolding starts_with
cut sep [] = none
cut sep (c ∷ s) =
    let later = after_char c (cut sep s) in
    if starts_with (c ∷ s) sep then some ([], drop (length sep) (c ∷ s)) else later

-- `s.partition(sep)` without its middle part.
unfoldable pub partition : Text → Text → Text × Text
unfolding cut
partition sep s = elim (cut sep s) [ none ↦ (s, []) | some (a, b) ↦ (a, b) ]

abbrev pub is_break : ℕ → Bool
is_break c = leb 10 c && leb c 13 || leb 28 c && leb c 30 || c == 0x85 || c == 0x2028 || c == 0x2029

-- The lines of `cur` followed by the second text; the flag says that a `\r` has just ended a line.
unfoldable pub lines_from : Bool → Text → Text → List Text
lines_from cr [] [] = []
lines_from cr (c ∷ cur) [] = (c ∷ cur) ∷ []
lines_from cr cur (c ∷ s) = elim (cr && c == b'\n') [
  | true ↦ lines_from false cur s
  | false ↦ elim (is_break c) [
    | true ↦ cur ∷ lines_from (c == b'\r') [] s
    | false ↦ lines_from false (cur ++ c ∷ []) s
  ]
]

-- `s.splitlines()`
unfoldable pub splitlines : Text → List Text
unfolding lines_from
splitlines s = lines_from false [] s

-- `re.sub(r"\s+", " ", s)`; the flag says that the last character was white space.
unfoldable pub collapse : Bool → Text → Text
unfolding is_space
collapse after [] = []
collapse after (c ∷ s) =
    let rest = collapse (is_space c) s in
    if is_space c then (if after then rest else b' ' ∷ rest) else c ∷ rest

-- `re.sub(r"\s+", " ", s).strip()`
unfoldable pub squeeze : Text → Text
unfolding collapse strip
squeeze s = strip (collapse false s)

-- What `text and text.strip()` keeps of a list: the squeezed lines that are not empty.
unfoldable pub clean_lines : List Text → List Text
unfolding squeeze
clean_lines [] = []
clean_lines (l ∷ ls) = emit_word (squeeze l) (clean_lines ls)
