-- ===== src/Announce/Bot/Commits/Subject.antt =====
-- Conventional subjects: the regular expressions of `commit_type` and `commit_lines` on them.
use orochi.Prelude.{◌&&◌, Option, none, some, [], ◌∷◌, leb, ◌==◌, if◌then◌else◌, ◌>>=◌}
use orochi.Text.{Text, text, is_empty, lstrip, drop_prefix}
use orochi.Text.Split.{cut}

-- `[a-z]+(?:\([^)]*\))?!?:` at the start of a text: its type, its scope if it has one, and the text
-- behind it. No choice of the expression is taken back: what follows a run of letters is no letter,
-- and a bracket stands for neither `!` nor `:`.
pub record ParsedSubject : Type 0 where
  pub type : Text
  pub scope : Option Text
  pub rest : Text

-- The longest run of `[a-z]` and what follows it.
unfoldable pub span_lower : Text → Text × Text
span_lower [] = ([], [])
span_lower (c ∷ s) =
    let (a, r) = span_lower s in if leb b'a' c && leb c b'z' then (c ∷ a, r) else ([], c ∷ s)

abbrev scope_group : Text → Option (Option Text × Text)
scope_group [] = some (none, [])
scope_group (c ∷ s) =
    if c == b'(' then (do (a, r) ← cut (text ")") s; some (some a, r)) else some (none, c ∷ s)

abbrev without_bang : Text → Text
without_bang [] = []
without_bang (c ∷ s) = if c == b'!' then s else c ∷ s

unfoldable pub parse_subject : Text → Option ParsedSubject
unfolding span_lower cut drop_prefix
parse_subject subj =
    let (type, s) = span_lower subj in
    if is_empty type then none else (do
      (scope, r) ← scope_group s
      rest ← drop_prefix (text ":") (without_bang r)
      some (record { type = type; scope = scope; rest = rest }))

abbrev type_or_none : Option ParsedSubject → Text
type_or_none none = []
type_or_none (some s) = s.type

abbrev scope_or_none : Option ParsedSubject → Text
scope_or_none none = []
scope_or_none (some s) = elim s.scope [ none ↦ [] | some t ↦ t ]

-- `commit_type`
unfoldable pub commit_type : Text → Text
unfolding parse_subject
commit_type subj = type_or_none (parse_subject subj)

-- The scope that the headline shows; an empty one is none.
unfoldable pub scope_of : Text → Text
unfolding parse_subject
scope_of subj = scope_or_none (parse_subject subj)

abbrev rest_or : Text → Option ParsedSubject → Text
rest_or subj none = subj
rest_or subj (some s) = lstrip s.rest

-- The subject without its type.
unfoldable pub clean_subject : Text → Text
unfolding parse_subject
clean_subject subj = rest_or subj (parse_subject subj)
