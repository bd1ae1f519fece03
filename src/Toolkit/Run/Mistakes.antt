-- ===== src/Toolkit/Run/Mistakes.antt =====
-- `main` makes no mistake.
use orochi.Prelude.{false, not, [], ◌≡◌, refl}
use orochi.Text.Find.{set_equal}
use orochi.Toolkit.Checks.{Failure, failed}
use orochi.Toolkit.Policy.{required_shared, claude_tools, keys}
use orochi.Toolkit.Skills.{validate_skills}
use orochi.Toolkit.Codex.{validate_codex}
use orochi.Toolkit.Claude.{validate_claude}
use orochi.Toolkit.Run.{Tree, skill_dirs, main}
use orochi.Toolkit.Mistakes.{is_mistake, step, guard, from_ok}
use orochi.Toolkit.Skills.Mistakes.{validate_skills-no_mistake}
use orochi.Toolkit.Codex.Mistakes.{validate_codex-no_mistake}
use orochi.Toolkit.Claude.Mistakes.{validate_claude-no_mistake}

-- `main` never fails with the assertion of `frontmatter`, with an access behind the end of a list or
-- with a missing key, whatever the files are.
pub main-no_mistake : (t : Tree) (e : Failure) → main t ≡ failed e → is_mistake e ≡ false
unfolding main validate_codex validate_claude
main-no_mistake t e h =
    step (validate_skills t.skills) _ h (validate_skills-no_mistake t.skills) λ skills i h₁.
      step (validate_codex (skill_dirs t.skills) t.codex) _ h₁
        (validate_codex-no_mistake (skill_dirs t.skills) t.codex [])
        λ codex i₁ h₂.
          step (validate_claude skills t.claude) _ h₂
            (validate_claude-no_mistake skills t.claude [])
            λ claude i₂ h₃. guard (not t.skills_exposed) _ _ h₃ refl λ i₃ h₄.
              guard (not (set_equal codex required_shared)) _ _ h₄ refl λ i₄ h₅.
                guard (not (set_equal claude (keys claude_tools))) _ _ h₅ refl λ i₅ h₆. from_ok h₆
