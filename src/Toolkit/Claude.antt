-- ===== src/Toolkit/Claude.antt =====
-- `validate_claude`. The order in which a set is gone through shows only in which of several
-- missing skills is reported.
pub mod Accepted
pub mod Complete
pub mod Mistakes
use orochi.Prelude.{Bool, not, ◌&&◌, ◌||◌, Option, none, some, List, [], ◌∷◌}
use orochi.Text.{Text, text, is_empty, same, member, add}
use orochi.Text.Dict.{get?}
use orochi.Text.Find.{set_equal}
use orochi.Toolkit.Checks.{
  Checked, ok, failed, ◌>>=◌, ◌>>◌, fail_if, or_fail, invalid_claude_name,
  missing_claude_description, claude_not_excluded, claude_cannot_own, duplicate_claude, wrong_tools,
  wrong_model, claude_missing_skill, claude_not_owner, index_error,
}
use orochi.Toolkit.Frontmatter.{Meta, frontmatter, split_parts, scalar, csv}
use orochi.Toolkit.Policy.{integrator, claude_tools, claude_model_effort}
use orochi.Toolkit.Roles.{
  is_owner, is_excluded, server_zig_role, server_exclusion_consistent, server_owner_consistent,
}
use orochi.Toolkit.Skills.{is_name}

pub record ClaudeFile : Type 0 where
  pub stem : Text
  pub body : Text

abbrev pub check_tools : Text → Option (List Text) → List Text → Checked (Unit {0})
check_tools name none tools = failed (wrong_tools name [] tools)
check_tools name (some expected) tools =
    fail_if (not (set_equal tools expected)) (wrong_tools name expected tools)

-- `bool(tools & {"Write", "Edit", "Bash"})`
unfoldable pub is_writer : List Text → Bool
unfolding member
is_writer tools =
    member (text "Write") tools || member (text "Edit") tools || member (text "Bash") tools

-- `raw_agent_text.split("---\n", 2)[2]`
unfoldable pub agent_body : Text → Checked Text
unfolding split_parts
agent_body t = do (a, (b, c)) ← or_fail (split_parts t) index_error; ok c

unfoldable pub check_claude_role : Text → List Text → Text → Checked (Unit {0})
check_claude_role name tools body = do
  let role = server_zig_role body
  fail_if
      (not (same name integrator)
        && (is_writer tools && (not (is_excluded role) || not (server_exclusion_consistent body))))
      (claude_not_excluded name)
  fail_if (same name integrator && (not (is_owner role) || not (server_owner_consistent body)))
      claude_not_owner
  fail_if (not (same name integrator) && is_owner role) (claude_cannot_own name)

abbrev pub model_effort : Option (Text × Text) → Text × Text
model_effort none = (text "claude-sonnet-5", text "high")
model_effort (some p) = p

unfoldable pub check_model : Text → Meta → Checked (Unit {0})
check_model name meta = do
  let expected = model_effort (get? name claude_model_effort)
  fail_if
      (not (same (scalar meta (text "model")) expected.0)
        || not (same (scalar meta (text "effort")) expected.1))
      (wrong_model name expected.0 expected.1)

unfoldable pub check_skill_names : List Text → Text → List Text → Checked (Unit {0})
unfolding member
check_skill_names known name [] = ok tt
check_skill_names known name (s ∷ ss) = do
  fail_if (not (member s known)) (claude_missing_skill name s)
  check_skill_names known name ss

-- The checks of one file, with the names so far.
unfoldable pub check_claude : List Text → ClaudeFile → List Text → Checked (List Text)
check_claude known f names = do
  meta ← frontmatter f.stem f.body
  let name = scalar meta (text "name")
  fail_if (not (same name f.stem) || not (is_name name)) (invalid_claude_name f.stem)
  fail_if (is_empty (scalar meta (text "description"))) (missing_claude_description name)
  let tools = csv meta (text "tools")
  check_tools name (get? name claude_tools) tools
  body ← agent_body f.body
  check_claude_role name tools body
  check_model name meta
  check_skill_names known name (csv meta (text "skills"))
  fail_if (member name names) (duplicate_claude name)
  ok (add name names)

unfoldable pub check_claude_files : List Text → List ClaudeFile → List Text → Checked (List Text)
check_claude_files known [] names = ok names
check_claude_files known (f ∷ fs) names = do
  names' ← check_claude known f names
  check_claude_files known fs names'

-- `validate_claude`
unfoldable pub validate_claude : List Text → List ClaudeFile → Checked (List Text)
unfolding check_claude_files
validate_claude known files = check_claude_files known files []
