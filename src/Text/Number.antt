-- ===== src/Text/Number.antt =====
-- Python's `int` on a text of ASCII characters, and `str` of its result.
use orochi.Prelude.{
  ℕ, ◌+◌, ◌-◌, ◌*◌, Bool, true, false, not, ◌&&◌, Option, none, some, [], ◌∷◌, ◌==◌, if◌then◌else◌,
}
use orochi.Text.{Text, is_digit, strip, show}

-- A sign, set for a negative number, and a magnitude.
pub record Number : Type 0 where
  pub negative : Bool
  pub magnitude : ℕ

-- Digits with single underscores between them; the flag says that the last character was a digit.
digits_value : Bool → ℕ → Text → Option ℕ
digits_value after n [] = if after then some n else none
digits_value after n (c ∷ s) = elim (is_digit c) [
  | true ↦ digits_value true (n * 10 + (c - b'0')) s
  | false ↦ elim (after && c == b'_') [ true ↦ digits_value false n s | false ↦ none ]
]

abbrev signed : Bool → Option ℕ → Option Number
signed neg none = none
signed neg (some n) = some (record { negative = neg && not (n == 0); magnitude = n })

abbrev parse_stripped : Text → Option Number
parse_stripped [] = none
parse_stripped (c ∷ s) =
    if c == b'-'
    then signed true (digits_value false 0 s)
    else if c == b'+'
    then signed false (digits_value false 0 s)
    else signed false (digits_value false 0 (c ∷ s))

-- `int(s)`; `none` is its `ValueError`.
unfoldable pub parse_int : Text → Option Number
unfolding digits_value strip
parse_int s = parse_stripped (strip s)

-- `str(n)`
unfoldable pub show_number : Number → Text
unfolding show
show_number n = if n.negative then b'-' ∷ show n.magnitude else show n.magnitude
