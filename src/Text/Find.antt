-- ===== src/Text/Find.antt =====
-- Python's `replace` by nothing, `count`, `strip` of one character, and sets of texts.
use orochi.Prelude.{
  ℕ, zero, suc, ◌+◌, ◌-◌, Bool, true, ◌&&◌, List, [], ◌∷◌, ◌==◌, leb, if◌then◌else◌, length,
}
use orochi.Text.{Text, starts_with, member}

-- `s.replace(c, "")` of one character.
unfoldable pub without : ℕ → Text → Text
without c [] = []
without c (d ∷ s) = let r = without c s in if d == c then r else d ∷ r

-- The occurrences of `p` behind the next `skip` characters, none within another.
unfoldable pub count_from : ℕ → Text → Text → ℕ
unfolding starts_with
count_from skip p [] = 0
count_from (suc skip) p (c ∷ s) = count_from skip p s
count_from zero p (c ∷ s) =
    let here = starts_with (c ∷ s) p in
    (if here then 1 else 0) + count_from (if here then length p - 1 else 0) p s

-- `s.count(p)` of a text `p` that is not empty.
unfoldable pub count : Text → Text → ℕ
unfolding count_from
count p s = count_from 0 p s

-- `s.strip(c)` of one character.
unfoldable pub lstrip_char : ℕ → Text → Text
lstrip_char c [] = []
lstrip_char c (d ∷ s) = let r = lstrip_char c s in if d == c then r else d ∷ s

abbrev pub keep_before : ℕ → ℕ → Text → Text
keep_before c d [] = if d == c then [] else d ∷ []
keep_before c d (e ∷ s) = d ∷ e ∷ s

unfoldable pub rstrip_char : ℕ → Text → Text
rstrip_char c [] = []
rstrip_char c (d ∷ s) = keep_before c d (rstrip_char c s)

unfoldable pub strip_char : ℕ → Text → Text
unfolding lstrip_char rstrip_char
strip_char c s = rstrip_char c (lstrip_char c s)

-- `xs <= ys` and `xs == ys` of sets.
unfoldable pub subset : List Text → List Text → Bool
unfolding member
subset [] ys = true
subset (x ∷ xs) ys = member x ys && subset xs ys

unfoldable pub set_equal : List Text → List Text → Bool
unfolding subset
set_equal xs ys = subset xs ys && subset ys xs

-- `[a-z0-9-]`
abbrev pub is_name_char : ℕ → Bool
is_name_char c =
    if leb b'a' c && leb c b'z' then true else if leb b'0' c && leb c b'9' then true else c == b'-'

-- The longest run of `[a-z0-9-]` at the start.
unfoldable pub name_run : Text → Text
name_run [] = []
name_run (c ∷ s) = let r = name_run s in if is_name_char c then c ∷ r else []
