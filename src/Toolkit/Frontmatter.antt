-- ===== src/Toolkit/Frontmatter.antt =====
-- The metadata in front of a Markdown file: `frontmatter`, `scalar`, `csv`.
pub mod Errors
pub mod Mistakes
use orochi.Prelude.{
  Bool, false, not, ◌||◌, Option, none, some, List, [], ◌∷◌, ◌++◌, drop, if◌then◌else◌,
}
use orochi.Text.{Text, text, is_space, is_empty, starts_with, strip, add_all}
use orochi.Text.Split.{splitlines, split_on, cut, emit_word}
use orochi.Text.Dict.{put, get?}
use orochi.Text.Find.{strip_char}
use orochi.Toolkit.Checks.{
  Checked, ok, failed, ◌>>=◌, ◌>>◌, fail_if, or_fail, no_frontmatter, unterminated_frontmatter,
  assertion_error, key_error,
}

-- `MetaValue`
pub data MetaValue : Type 0 where
  scalar_of : Text → MetaValue
  items : List Text → MetaValue

abbrev pub Meta : Type 0
Meta = List (Text × MetaValue)

-- The local variables of the loop: `values` and `current_list`.
pub record Reading : Type 0 where
  pub values : Meta
  pub current : Option Text

abbrev pub separator : Text
separator = text "---\n"

-- The three parts of `text.split("---\n", 2)`, if there are three.
unfoldable pub split_parts : Text → Option (Text × (Text × Text))
unfolding cut
split_parts t = elim (cut separator t) [
  | none ↦ none
  | some (a, r) ↦ elim (cut separator r) [ none ↦ none | some (b, c) ↦ some (a, (b, c)) ]
]

-- `line[4:].strip().strip('"')`
abbrev pub item_of : Text → Text
item_of line = strip_char b'"' (strip (drop 4 line))

-- `value = values[key]`, the assertion, and `value.append(item)`.
abbrev append_item : Text → Text → Reading → Option MetaValue → Checked Reading
append_item key item st none = failed key_error
append_item key item st (some (scalar_of v)) = failed assertion_error
append_item key item st (some (items l)) =
    ok (record st { values = put key (items (l ++ item ∷ [])) st.values })

abbrev pub starts_space : Text → Bool
starts_space [] = false
starts_space (c ∷ s) = is_space c

-- The rest of the round for a line that is no item.
unfoldable pub read_field : Text → Reading → Reading
unfolding cut strip strip_char is_space put
read_field line st = elim (cut (text ":") line) [
  | none ↦ record st { current = none }
  | some (k, v) ↦
      let key = strip k in
      let value = strip_char b'"' (strip v) in
      if is_empty line || starts_space line
      then record st { current = none }
      else if not (is_empty value)
      then record { values = put key (scalar_of value) st.values; current = none }
      else record { values = put key (items []) st.values; current = some key }
]

abbrev read_item : Text → Reading → Option Text → Checked Reading
read_item line st none = ok (read_field line st)
read_item line st (some key) = append_item key (item_of line) st (get? key st.values)

-- One round of the loop.
unfoldable pub read_line : Text → Reading → Checked Reading
unfolding read_field get? put starts_with strip strip_char
read_line line st =
    if starts_with line (text "  - ") then read_item line st st.current else ok (read_field line st)

unfoldable pub read_lines : List Text → Reading → Checked Reading
unfolding read_line
read_lines [] st = ok st
read_lines (l ∷ ls) st = do st' ← read_line l st; read_lines ls st'

abbrev pub no_values : Reading
no_values = record { values = []; current = none }

-- `frontmatter`, of the file with this name and this text.
unfoldable pub frontmatter : Text → Text → Checked Meta
unfolding read_lines split_parts splitlines starts_with
frontmatter path t = do
  fail_if (not (starts_with t separator)) (no_frontmatter path)
  (a, (raw, body)) ← or_fail (split_parts t) (unterminated_frontmatter path)
  st ← read_lines (splitlines raw) no_values
  ok st.values

abbrev text_of : Option MetaValue → Text
text_of none = []
text_of (some (scalar_of v)) = v
text_of (some (items l)) = []

-- `scalar`
unfoldable pub scalar : Meta → Text → Text
unfolding get?
scalar m key = text_of (get? key m)

abbrev strip_all : List Text → List Text
strip_all [] = []
strip_all (s ∷ ss) = emit_word (strip s) (strip_all ss)

abbrev set_of : Option MetaValue → List Text
set_of none = []
set_of (some (scalar_of v)) = add_all (strip_all (split_on b',' v)) []
set_of (some (items l)) = add_all l []

-- `csv`
unfoldable pub csv : Meta → Text → List Text
unfolding get? strip split_on add_all
csv m key = set_of (get? key m)
