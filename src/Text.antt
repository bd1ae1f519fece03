-- ===== src/Text.antt =====
-- Python's `str` as the list of its code points, with the methods that the scripts call. Case
-- mapping is exact on ASCII and on every code point whose image holds an ASCII letter; other code
-- points are kept, which no comparison with an ASCII literal can tell.
pub mod Equal
pub mod Split
pub mod Order
pub mod Number
pub mod Encode
pub mod Words
pub mod Dict
pub mod Find
pub mod Sets
use Prim.Native.Char.{code}
use orochi.Prelude.{
  ℕ, zero, suc, ◌+◌, ◌-◌, ◌*◌, ◌/◌, ◌%◌, String, Bool, true, false, not, ◌&&◌, ◌||◌, Option, none,
  some, List, [], ◌∷◌, ◌++◌, ltb, leb, ◌==◌, if◌then◌else◌, length, drop,
}

abbrev pub Text : Type 0
Text = List ℕ

-- A literal.
abbrev pub text : String → Text
text String.[] = []
text (String.◌∷◌ c s) = code c ∷ text s

abbrev pub is_empty : Text → Bool
is_empty [] = true
is_empty (c ∷ s) = false

-- `c.isspace()`, which is also `\s` of a pattern on `str`.
unfoldable pub is_space : ℕ → Bool
is_space c =
    leb 9 c && leb c 13
    || leb 28 c && leb c 32
    || c == 0x85
    || c == 0xa0
    || c == 0x1680
    || leb 0x2000 c && leb c 0x200a
    || c == 0x2028
    || c == 0x2029
    || c == 0x202f
    || c == 0x205f
    || c == 0x3000

abbrev pub is_digit : ℕ → Bool
is_digit c = leb b'0' c && leb c b'9'

-- `s == t`
unfoldable pub same : Text → Text → Bool
same [] [] = true
same (x ∷ s) (y ∷ t) = x == y && same s t
same _ _ = false

-- `s.startswith(p)`
unfoldable pub starts_with : Text → Text → Bool
starts_with s [] = true
starts_with [] (y ∷ p) = false
starts_with (x ∷ s) (y ∷ p) = x == y && starts_with s p

-- `p in s`
unfoldable pub contains : Text → Text → Bool
unfolding starts_with
contains [] p = is_empty p
contains (x ∷ s) p = starts_with (x ∷ s) p || contains s p

-- Membership in a set of texts.
unfoldable pub member : Text → List Text → Bool
unfolding same
member a [] = false
member a (x ∷ xs) = same a x || member a xs

-- `xs.add(a)` of a set, kept as a list without repetitions.
unfoldable pub add : Text → List Text → List Text
unfolding member
add a xs = if member a xs then xs else xs ++ a ∷ []

unfoldable pub add_all : List Text → List Text → List Text
unfolding add
add_all [] xs = xs
add_all (a ∷ as_) xs = add_all as_ (add a xs)

-- `s.lstrip()`, `s.rstrip()`, `s.strip()`
unfoldable pub lstrip : Text → Text
unfolding is_space
lstrip [] = []
lstrip (c ∷ s) = if is_space c then lstrip s else c ∷ s

abbrev pub keep_last : ℕ → Text → Text
keep_last c [] = if is_space c then [] else c ∷ []
keep_last c (d ∷ s) = c ∷ d ∷ s

unfoldable pub rstrip : Text → Text
unfolding is_space
rstrip [] = []
rstrip (c ∷ s) = keep_last c (rstrip s)

unfoldable pub strip : Text → Text
unfolding lstrip rstrip
strip s = rstrip (lstrip s)

-- `sep.join(parts)`
unfoldable pub join : Text → List Text → Text
join sep [] = []
join sep (p ∷ []) = p
join sep (p ∷ q ∷ r) = p ++ (sep ++ join sep (q ∷ r))

unfoldable pub lower_char : ℕ → Text
lower_char c =
    if leb b'A' c && leb c b'Z'
    then (c + 32) ∷ []
    else if c == 0x212a
    then b'k' ∷ []
    else if c == 0x130
    then b'i' ∷ 0x307 ∷ []
    else c ∷ []

-- `s.lower()`
unfoldable pub lower : Text → Text
unfolding lower_char
lower [] = []
lower (c ∷ s) = lower_char c ++ lower s

-- The code points beyond ASCII whose upper case holds an ASCII letter.
abbrev upper_special : ℕ → Text
upper_special c =
    if c == 0xdf
    then text "SS"
    else if c == 0x131
    then text "I"
    else if c == 0x149
    then 0x2bc ∷ text "N"
    else if c == 0x17f
    then text "S"
    else if c == 0x1f0
    then b'J' ∷ 0x30c ∷ []
    else if c == 0x1e96
    then b'H' ∷ 0x331 ∷ []
    else if c == 0x1e97
    then b'T' ∷ 0x308 ∷ []
    else if c == 0x1e98
    then b'W' ∷ 0x30a ∷ []
    else if c == 0x1e99
    then b'Y' ∷ 0x30a ∷ []
    else if c == 0x1e9a
    then b'A' ∷ 0x2be ∷ []
    else if c == 0xfb00
    then text "FF"
    else if c == 0xfb01
    then text "FI"
    else if c == 0xfb02
    then text "FL"
    else if c == 0xfb03
    then text "FFI"
    else if c == 0xfb04
    then text "FFL"
    else if c == 0xfb05
    then text "ST"
    else if c == 0xfb06
    then text "ST"
    else c ∷ []

unfoldable pub upper_char : ℕ → Text
upper_char c = if leb b'a' c && leb c b'z' then (c - 32) ∷ [] else upper_special c

-- `s.upper()`
unfoldable pub upper : Text → Text
unfolding upper_char
upper [] = []
upper (c ∷ s) = upper_char c ++ upper s

-- `str(n)`: the digits, by a fuel that `n + 1` always covers.
digits_onto : ℕ → ℕ → Text → Text
digits_onto zero n rest = rest
digits_onto (suc fuel) n rest =
    let more = digits_onto fuel (n / 10) ((b'0' + n % 10) ∷ rest) in
    if ltb n 10 then (b'0' + n) ∷ rest else more

unfoldable pub show : ℕ → Text
unfolding digits_onto
show n = digits_onto (n + 1) n []

-- An f-string: its pieces one after another.
abbrev pub cat : List Text → Text
cat [] = []
cat (t ∷ []) = t
cat (t ∷ u ∷ ts) = t ++ cat (u ∷ ts)

-- `s.removeprefix(p)` where `p` is a prefix, and `none` elsewhere.
unfoldable pub drop_prefix : Text → Text → Option Text
drop_prefix [] s = some s
drop_prefix (y ∷ p) [] = none
drop_prefix (y ∷ p) (x ∷ s) = if x == y then drop_prefix p s else none

-- The longest prefix without white space, `\S*`, and the rest.
unfoldable pub span_word : Text → Text × Text
unfolding is_space
span_word [] = ([], [])
span_word (c ∷ s) = let (w, r) = span_word s in if is_space c then ([], c ∷ s) else (c ∷ w, r)

-- `\S+` at the start of the text.
unfoldable pub word_of : Text → Option (Text × Text)
unfolding span_word
word_of s = let (w, r) = span_word s in if is_empty w then none else some (w, r)

-- `.*` at the start of the text: all before the first `\n`.
unfoldable pub upto_newline : Text → Text
upto_newline [] = []
upto_newline (c ∷ s) = let r = upto_newline s in if c == b'\n' then [] else c ∷ r
