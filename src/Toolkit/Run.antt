-- ===== src/Toolkit/Run.antt =====
-- `main` of the validator, on the files of a repository.
pub mod Success
pub mod Roster
pub mod Authority
pub mod Owner
pub mod References
pub mod Mistakes
use orochi.Prelude.{ℕ, Bool, not, List, [], ◌∷◌, length, if◌then◌else◌}
use orochi.Text.{Text, member}
use orochi.Text.Find.{set_equal}
use orochi.Toolkit.Checks.{
  Checked, ok, ◌>>=◌, ◌>>◌, fail_if, skills_not_exposed, codex_roster, claude_roster,
}
use orochi.Toolkit.Policy.{required_shared, claude_tools, keys}
use orochi.Toolkit.Skills.{SkillFile, validate_skills}
use orochi.Toolkit.Codex.{CodexFile, validate_codex}
use orochi.Toolkit.Claude.{ClaudeFile, validate_claude}

-- What the script reads: the three globs, and whether `.claude/skills` leads to `.agents/skills`.
-- Every `SKILL.md` of the glob is a file.
pub record Tree : Type 0 where
  pub skills : List SkillFile
  pub codex : List CodexFile
  pub claude : List ClaudeFile
  pub skills_exposed : Bool

abbrev pub skill_dirs : List SkillFile → List Text
skill_dirs [] = []
skill_dirs (f ∷ fs) = f.dir ∷ skill_dirs fs

-- `xs - ys` of sets.
unfoldable pub difference : List Text → List Text → List Text
unfolding member
difference [] ys = []
difference (x ∷ xs) ys = let r = difference xs ys in if member x ys then r else x ∷ r

-- The numbers that the last line prints.
pub record Counts : Type 0 where
  pub skills : ℕ
  pub codex : ℕ
  pub claude : ℕ

-- `main`
unfoldable pub main : Tree → Checked Counts
main t = do
  skills ← validate_skills t.skills
  codex ← validate_codex (skill_dirs t.skills) t.codex
  claude ← validate_claude skills t.claude
  fail_if (not t.skills_exposed) skills_not_exposed
  fail_if (not (set_equal codex required_shared))
      (codex_roster (difference required_shared codex) (difference codex required_shared))
  fail_if (not (set_equal claude (keys claude_tools))) (
      claude_roster (difference (keys claude_tools) claude) (difference claude (keys claude_tools)))
  ok (record { skills = length skills; codex = length codex; claude = length claude })
