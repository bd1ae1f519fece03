-- ===== src/Toolkit/Skills/Mistakes.antt =====
-- `validate_skills` makes no mistake.
use orochi.Prelude.{false, not, ◌&&◌, ◌||◌, List, [], ◌∷◌, ◌≡◌, refl}
use orochi.Text.{Text, text, is_empty, same, contains, member, lower}
use orochi.Text.Find.{without}
use orochi.Toolkit.Checks.{Failure, failed, skill_without_ownership, skill_without_handoff}
use orochi.Toolkit.Frontmatter.{frontmatter, scalar}
use orochi.Toolkit.Skills.{
  SkillFile, is_name, is_nil, ui_names, check_skill_text, check_skill, check_skills,
  validate_skills,
}
use orochi.Toolkit.Mistakes.{is_mistake, step, guard, only_guard, from_ok}
use orochi.Toolkit.Frontmatter.Mistakes.{frontmatter-no_mistake}

pub check_skill_text-no_mistake :
    (name body : Text) (e : Failure) → check_skill_text name body ≡ failed e → is_mistake e ≡ false
unfolding check_skill_text
check_skill_text-no_mistake name body e h =
    let n = lower (without b'`' body) in
    guard
      (same name (text "onyx-server-integration")
        && (not (contains n (text "permanent named-role reservation on src/daemon/server.zig"))
            || not (contains n (text "onyx-server-integrator"))))
      skill_without_ownership _ h refl
      λ i rest.
        only_guard
          (same name (text "onyx-session-mesh")
            && (not (contains n (text "never edit src/daemon/server.zig"))
                || not (contains n (text "onyx-server-integrator"))))
          skill_without_handoff rest refl

pub check_skill-no_mistake :
    (f : SkillFile) (names : List Text) (e : Failure)
    → check_skill f names ≡ failed e
    → is_mistake e ≡ false
unfolding check_skill
check_skill-no_mistake f names e h =
    step (frontmatter f.dir f.body) _ h (frontmatter-no_mistake f.dir f.body) λ meta i h₁.
      guard
        (not (is_name (scalar meta (text "name"))) || not (same (scalar meta (text "name")) f.dir))
        _ _ h₁ refl
        λ i₁ h₂. guard (is_empty (scalar meta (text "description"))) _ _ h₂ refl λ i₂ h₃.
          guard (member (scalar meta (text "name")) names) _ _ h₃ refl λ i₃ h₄.
            step (check_skill_text (scalar meta (text "name")) f.body) _ h₄
              (check_skill_text-no_mistake (scalar meta (text "name")) f.body)
              λ u i₄ h₅.
                guard (not (ui_names (scalar meta (text "name")) f.ui)) _ _ h₅ refl
                  λ i₅ h₆. from_ok h₆

pub check_skills-no_mistake :
    (fs : List SkillFile) (names : List Text) (e : Failure)
    → check_skills fs names ≡ failed e
    → is_mistake e ≡ false
unfolding check_skills
check_skills-no_mistake [] names e h = from_ok h
check_skills-no_mistake (f ∷ fs) names e h =
    step (check_skill f names) _ h (check_skill-no_mistake f names)
      λ names' i rest. check_skills-no_mistake fs names' e rest

pub validate_skills-no_mistake :
    (fs : List SkillFile) (e : Failure) → validate_skills fs ≡ failed e → is_mistake e ≡ false
unfolding validate_skills
validate_skills-no_mistake fs e h =
    step (check_skills fs []) _ h (check_skills-no_mistake fs [])
      λ names i h₁. guard (is_nil names) _ _ h₁ refl λ i₁ h₂. from_ok h₂
