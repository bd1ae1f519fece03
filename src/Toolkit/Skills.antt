-- ===== src/Toolkit/Skills.antt =====
-- `validate_skills`. The files are those of the glob, in its sorted order.
pub mod Mistakes
use orochi.Prelude.{Bool, true, false, not, ◌&&◌, ◌||◌, Option, none, some, List, [], ◌∷◌}
use orochi.Text.{Text, text, is_empty, same, contains, member, add, lower}
use orochi.Text.Find.{without, is_name_char}
use orochi.Toolkit.Checks.{
  Checked, ok, ◌>>=◌, ◌>>◌, fail_if, invalid_skill_name, missing_skill_description, duplicate_skill,
  stale_ui, skill_without_ownership, skill_without_handoff, no_skills,
}
use orochi.Toolkit.Frontmatter.{frontmatter, scalar}

-- A `SKILL.md`: the name of its directory, its text, and the text of `agents/openai.yaml` beside it
-- if that is a file.
pub record SkillFile : Type 0 where
  pub dir : Text
  pub body : Text
  pub ui : Option Text

-- `NAME.fullmatch(s)`
unfoldable pub all_name_chars : Text → Bool
all_name_chars [] = true
all_name_chars (c ∷ s) = is_name_char c && all_name_chars s

unfoldable pub is_name : Text → Bool
unfolding all_name_chars
is_name s = not (is_empty s) && all_name_chars s

abbrev pub ui_names : Text → Option Text → Bool
ui_names name none = false
ui_names name (some t) = contains t (b'$' ∷ name)

-- What the two skills about server.zig must say.
unfoldable pub check_skill_text : Text → Text → Checked (Unit {0})
check_skill_text name body = do
  let normalized = lower (without b'`' body)
  fail_if
      (same name (text "onyx-server-integration")
        && (not (
              contains normalized
                (text "permanent named-role reservation on src/daemon/server.zig"))
            || not (contains normalized (text "onyx-server-integrator"))))
      skill_without_ownership
  fail_if
      (same name (text "onyx-session-mesh")
        && (not (contains normalized (text "never edit src/daemon/server.zig"))
            || not (contains normalized (text "onyx-server-integrator"))))
      skill_without_handoff

-- The checks of one file, with the names so far.
unfoldable pub check_skill : SkillFile → List Text → Checked (List Text)
check_skill f names = do
  meta ← frontmatter f.dir f.body
  let name = scalar meta (text "name")
  fail_if (not (is_name name) || not (same name f.dir)) (invalid_skill_name f.dir)
  fail_if (is_empty (scalar meta (text "description"))) (missing_skill_description f.dir)
  fail_if (member name names) (duplicate_skill name)
  check_skill_text name f.body
  fail_if (not (ui_names name f.ui)) (stale_ui name)
  ok (add name names)

unfoldable pub check_skills : List SkillFile → List Text → Checked (List Text)
check_skills [] names = ok names
check_skills (f ∷ fs) names = do names' ← check_skill f names; check_skills fs names'

abbrev pub is_nil : List Text → Bool
is_nil [] = true
is_nil (x ∷ xs) = false

-- `validate_skills`
unfoldable pub validate_skills : List SkillFile → Checked (List Text)
unfolding check_skills
validate_skills files = do names ← check_skills files []; fail_if (is_nil names) no_skills; ok names
