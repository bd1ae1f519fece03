-- ===== src/Toolkit/Claude/Mistakes.antt =====
-- `validate_claude` makes no mistake.
use orochi.Prelude.{false, not, ◌&&◌, ◌||◌, List, [], ◌∷◌, ◌≡◌, Option, none, some, refl}
use orochi.Text.{Text, text, is_empty, same, member}
use orochi.Text.Dict.{get?}
use orochi.Text.Find.{set_equal}
use orochi.Toolkit.Checks.{
  Failure, failed, wrong_tools, claude_not_excluded, claude_not_owner, claude_cannot_own,
  wrong_model,
}
use orochi.Toolkit.Policy.{integrator, claude_tools}
use orochi.Toolkit.Roles.{
  is_owner, is_excluded, server_zig_role, server_exclusion_consistent, server_owner_consistent,
}
use orochi.Toolkit.Frontmatter.{Meta, frontmatter, scalar, csv}
use orochi.Toolkit.Skills.{is_name}
use orochi.Toolkit.Claude.{
  ClaudeFile, check_tools, check_claude_role, check_model, check_skill_names, is_writer, agent_body,
  check_claude, check_claude_files,
}
use orochi.Toolkit.Mistakes.{is_mistake, step, guard, only_guard, from_ok}
use orochi.Toolkit.Frontmatter.Mistakes.{frontmatter-no_mistake, agent_body-ok}

pub check_tools-no_mistake :
    (name : Text) (o : Option (List Text)) (tools : List Text) (e : Failure)
    → check_tools name o tools ≡ failed e
    → is_mistake e ≡ false
check_tools-no_mistake name none tools e h = cc
check_tools-no_mistake name (some x) tools e h =
    only_guard (not (set_equal tools x)) (wrong_tools name x tools) h refl

pub check_claude_role-no_mistake :
    (name : Text) (tools : List Text) (body : Text) (e : Failure)
    → check_claude_role name tools body ≡ failed e
    → is_mistake e ≡ false
unfolding check_claude_role
check_claude_role-no_mistake name tools body e h =
    let role = server_zig_role body in
    guard
      (not (same name integrator)
        && (is_writer tools && (not (is_excluded role) || not (server_exclusion_consistent body))))
      (claude_not_excluded name) _ h refl
      λ i h₁.
        guard (same name integrator && (not (is_owner role) || not (server_owner_consistent body)))
          claude_not_owner _ h₁ refl
          λ i₁ h₂.
            only_guard (not (same name integrator) && is_owner role) (claude_cannot_own name) h₂
              refl

pub check_model-no_mistake :
    (name : Text) (m : Meta) (e : Failure) → check_model name m ≡ failed e → is_mistake e ≡ false
unfolding check_model
check_model-no_mistake name m e h = only_guard _ (wrong_model name _ _) h refl

pub check_skill_names-no_mistake :
    (known : List Text) (name : Text) (ss : List Text) (e : Failure)
    → check_skill_names known name ss ≡ failed e
    → is_mistake e ≡ false
unfolding check_skill_names
check_skill_names-no_mistake known name [] e h = from_ok h
check_skill_names-no_mistake known name (s ∷ ss) e h =
    guard (not (member s known)) _ _ h refl
      λ i rest. check_skill_names-no_mistake known name ss e rest

pub check_claude-no_mistake :
    (known : List Text) (f : ClaudeFile) (names : List Text) (e : Failure)
    → check_claude known f names ≡ failed e
    → is_mistake e ≡ false
unfolding check_claude
check_claude-no_mistake known f names e h =
    step (frontmatter f.stem f.body) _ h (frontmatter-no_mistake f.stem f.body) λ meta is_meta h₁.
      let name = scalar meta (text "name") in
      let tools = csv meta (text "tools") in
      guard (not (same name f.stem) || not (is_name name)) _ _ h₁ refl λ i₁ h₂.
        guard (is_empty (scalar meta (text "description"))) _ _ h₂ refl λ i₂ h₃.
          step (check_tools name (get? name claude_tools) tools) _ h₃
            (check_tools-no_mistake name (get? name claude_tools) tools)
            λ u i₃ h₄.
              step (agent_body f.body) _ h₄ (λ e'. agent_body-ok f.stem f.body meta e' is_meta)
                λ body i₄ h₅.
                  step (check_claude_role name tools body) _ h₅
                    (check_claude_role-no_mistake name tools body)
                    λ u₁ i₅ h₆.
                      step (check_model name meta) _ h₆ (check_model-no_mistake name meta)
                        λ u₂ i₆ h₇.
                          step (check_skill_names known name (csv meta (text "skills"))) _ h₇
                            (check_skill_names-no_mistake known name (csv meta (text "skills")))
                            λ u₃ i₇ h₈. guard (member name names) _ _ h₈ refl λ i₈ h₉. from_ok h₉

pub validate_claude-no_mistake :
    (known : List Text) (fs : List ClaudeFile) (names : List Text) (e : Failure)
    → check_claude_files known fs names ≡ failed e
    → is_mistake e ≡ false
unfolding check_claude_files
validate_claude-no_mistake known [] names e h = from_ok h
validate_claude-no_mistake known (f ∷ fs) names e h =
    step (check_claude known f names) _ h (check_claude-no_mistake known f names)
      λ names' i rest. validate_claude-no_mistake known fs names' e rest
