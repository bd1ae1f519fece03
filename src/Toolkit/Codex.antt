-- ===== src/Toolkit/Codex.antt =====
-- `validate_codex`. What `tomllib` makes of a file is an argument: `none` is its error.
pub mod Accepted
pub mod Sound
pub mod Complete
pub mod Mistakes
use orochi.Prelude.{
  Bool, true, false, not, ◌&&◌, ◌||◌, Option, none, some, List, [], ◌∷◌, ◌++◌, ◌==◌, if◌then◌else◌,
}
use orochi.Text.{Text, text, is_empty, same, contains, member, add, lower, drop_prefix}
use orochi.Text.Dict.{get?}
use orochi.Text.Find.{name_run}
use orochi.Toolkit.Checks.{
  Checked, ok, failed, ◌>>=◌, ◌>>◌, fail_if, or_fail, invalid_codex_name, incomplete_codex,
  duplicate_codex, wrong_sandbox, wrong_codex_effort, codex_missing_skill, no_edit_but_writes,
  pins_model, codex_not_excluded, codex_cannot_own, codex_not_owner, key_error, attribute_error,
  toml_error,
}
use orochi.Toolkit.Policy.{integrator, codex_sandbox, codex_effort, excluded_writers}
use orochi.Toolkit.Roles.{
  is_owner, is_excluded, server_zig_role, server_exclusion_consistent, server_owner_consistent,
}
use orochi.Toolkit.Skills.{is_name}

-- A value of a TOML document: a string, or another value with its truth as Python sees it.
pub data TomlValue : Type 0 where
  str : Text → TomlValue
  other : Bool → TomlValue

abbrev pub Toml : Type 0
Toml = List (Text × TomlValue)

-- A file with its stem.
pub record CodexFile : Type 0 where
  pub stem : Text
  pub toml : Option Toml

abbrev pub truthy : Option TomlValue → Bool
truthy none = false
truthy (some (str t)) = not (is_empty t)
truthy (some (other b)) = b

-- `value == t`
abbrev pub value_is : Option TomlValue → Text → Bool
value_is none t = false
value_is (some (str s)) t = same s t
value_is (some (other b)) t = false

-- `data[key]` where a string is needed.
abbrev pub as_text : Option TomlValue → Checked Text
as_text none = failed key_error
as_text (some (str t)) = ok t
as_text (some (other b)) = failed attribute_error

-- `data.get("name", "")`, if it is the file's stem and a name.
abbrev pub name_for : Text → Option TomlValue → Checked Text
name_for stem none = failed (invalid_codex_name stem)
name_for stem (some (str t)) =
    if not (same t stem) || not (is_name t) then failed (invalid_codex_name stem) else ok t
name_for stem (some (other b)) = failed (invalid_codex_name stem)

abbrev pub has_key : Option TomlValue → Bool
has_key none = false
has_key (some v) = true

-- The check of a table's entry, if the table has one for the name.
abbrev pub expect :
    Option Text → Option TomlValue → (Text → Checked (Unit {0})) → Checked (Unit {0})
expect none v refuse = ok tt
expect (some t) v refuse = if value_is v t then ok tt else refuse t

-- Whether the description or the instructions promise not to edit.
unfoldable pub no_edit_contract : Text → Toml → Checked Bool
unfolding get? lower contains
no_edit_contract description d =
    if contains (lower description) (text "without editing source") then ok true else (do
      t ← as_text (get? (text "developer_instructions") d)
      ok (contains (lower t) (text "remain read-only")))

abbrev emit_ref : Text → List Text → List Text
emit_ref [] rest = rest
emit_ref (c ∷ s) rest = (text "onyx-" ++ c ∷ s) ∷ rest

abbrev ref_at : Option Text → List Text → List Text
ref_at none rest = rest
ref_at (some r) rest = emit_ref (name_run r) rest

-- `re.findall(r"\$(onyx-[a-z0-9-]+)", s)`. A reference holds no dollar sign but its first, so none
-- begins within another.
unfoldable pub skill_refs : Text → List Text
unfolding drop_prefix name_run
skill_refs [] = []
skill_refs (c ∷ s) =
    let rest = skill_refs s in
    if c == b'$' then ref_at (drop_prefix (text "onyx-") s) rest else rest

unfoldable pub check_refs : List Text → Text → List Text → Checked (Unit {0})
unfolding member
check_refs dirs name [] = ok tt
check_refs dirs name (r ∷ rs) = do
  fail_if (not (member r dirs)) (codex_missing_skill name r)
  check_refs dirs name rs

-- The authority over server.zig that the instructions declare.
unfoldable pub check_codex_role : Text → Text → Checked (Unit {0})
check_codex_role name instructions = do
  let role = server_zig_role instructions
  fail_if
      (member name excluded_writers
        && (not (is_excluded role) || not (server_exclusion_consistent instructions)))
      (codex_not_excluded name)
  fail_if
      (same name integrator && (not (is_owner role) || not (server_owner_consistent instructions)))
      codex_not_owner
  fail_if (not (same name integrator) && is_owner role) (codex_cannot_own name)

-- The checks of one file, with the names so far; `dirs` are the directories that hold a `SKILL.md`.
unfoldable pub check_codex : List Text → CodexFile → List Text → Checked (List Text)
check_codex dirs f names = do
  d ← or_fail f.toml toml_error
  name ← name_for f.stem (get? (text "name") d)
  fail_if
      (not (truthy (get? (text "description") d))
        || not (truthy (get? (text "developer_instructions") d)))
      (incomplete_codex name)
  fail_if (member name names) (duplicate_codex name)
  expect (get? name codex_sandbox) (get? (text "sandbox_mode") d)
      (λ t. failed (wrong_sandbox name t))
  description ← as_text (get? (text "description") d)
  no_edit ← no_edit_contract description d
  fail_if (no_edit && not (value_is (get? (text "sandbox_mode") d) (text "read-only")))
      (no_edit_but_writes name)
  expect (get? name codex_effort) (get? (text "model_reasoning_effort") d)
      (λ t. failed (wrong_codex_effort name t))
  fail_if (has_key (get? (text "model") d)) (pins_model name)
  instructions ← as_text (get? (text "developer_instructions") d)
  check_codex_role name instructions
  check_refs dirs name (skill_refs instructions)
  ok (add name names)

unfoldable pub check_codex_files : List Text → List CodexFile → List Text → Checked (List Text)
check_codex_files dirs [] names = ok names
check_codex_files dirs (f ∷ fs) names = do
  names' ← check_codex dirs f names
  check_codex_files dirs fs names'

-- `validate_codex`
unfoldable pub validate_codex : List Text → List CodexFile → Checked (List Text)
unfolding check_codex_files
validate_codex dirs files = check_codex_files dirs files []
