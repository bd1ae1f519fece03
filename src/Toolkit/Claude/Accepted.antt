-- ===== src/Toolkit/Claude/Accepted.antt =====
-- What the validator accepts as a Claude agent, rule by rule.
use orochi.Prelude.{
  true, false, not, ◌||◌, Option, none, some, List, [], ◌∷◌, ◌≡◌, refl, sym, ap, subst, ◌∙◌, arith,
  All,
}
use orochi.Text.{Text, text, is_empty, same, member, add}
use orochi.Text.Dict.{get?}
use orochi.Text.Equal.{same_iff}
use orochi.Text.Find.{set_equal}
use orochi.Toolkit.Checks.{Failure, ok, fail_if, >>=-elim, fail_if-elim}
use orochi.Toolkit.Frontmatter.{Meta, frontmatter, scalar, csv}
use orochi.Toolkit.Policy.{integrator, claude_tools, claude_model_effort}
use orochi.Toolkit.Roles.{
  owner, excluded, is_owner, is_excluded, server_zig_role, server_exclusion_consistent,
  server_owner_consistent,
}
use orochi.Toolkit.Skills.{is_name}
use orochi.Toolkit.Claude.{
  ClaudeFile, check_tools, is_writer, agent_body, check_claude_role, model_effort, check_model,
  check_skill_names, check_claude, check_claude_files,
}
use orochi.Toolkit.Codex.Accepted.{is_owner-owner, is_excluded-excluded, added}

-- The authority over server.zig that an agent with these tools may declare.
pub record MayDeclare (name : Text) (tools : List Text) (body : Text) : Type 0 where
  pub excluded_if :
      same name integrator ≡ false → is_writer tools ≡ true → server_zig_role body ≡ excluded
  pub excluded_text :
      same name integrator ≡ false
      → is_writer tools ≡ true
      → server_exclusion_consistent body ≡ true
  pub owner_if : name ≡ integrator → server_zig_role body ≡ owner
  pub owner_text : name ≡ integrator → server_owner_consistent body ≡ true
  pub owner_only_if : server_zig_role body ≡ owner → name ≡ integrator

pub record IsAccepted (known : List Text) (f : ClaudeFile) : Type 0 where
  pub meta : Meta
  pub body : Text
  pub expected : List Text
  pub meta_is : frontmatter f.stem f.body ≡ ok meta
  pub body_is : agent_body f.body ≡ ok body
  pub name_is : scalar meta (text "name") ≡ f.stem
  pub named : is_name f.stem ≡ true
  pub described : is_empty (scalar meta (text "description")) ≡ false
  pub listed : get? f.stem claude_tools ≡ some expected
  pub tools_are : set_equal (csv meta (text "tools")) expected ≡ true
  pub declares : MayDeclare f.stem (csv meta (text "tools")) body
  pub model_is : scalar meta (text "model") ≡ (model_effort (get? f.stem claude_model_effort)).0
  pub effort_is : scalar meta (text "effort") ≡ (model_effort (get? f.stem claude_model_effort)).1
  pub skills_known : All (λ s. member s known ≡ true) (csv meta (text "skills"))

check_tools-eq-ok :
    (name : Text) (o : Option (List Text)) (tools : List Text)
    → check_tools name o tools ≡ ok tt
    → (e : List Text) × (o ≡ some e) × (set_equal tools e ≡ true)
check_tools-eq-ok name none tools h = cc
check_tools-eq-ok name (some e) tools h = (e, refl, ground arith)

role_tests :
    (name : Text) (tools : List Text) (body : Text)
    → check_claude_role name tools body ≡ ok tt
    → (same name integrator ≡ false
        → is_writer tools ≡ true
        → is_excluded (server_zig_role body) ≡ true)
      × (same name integrator ≡ false
          → is_writer tools ≡ true
          → server_exclusion_consistent body ≡ true)
      × (same name integrator ≡ true → is_owner (server_zig_role body) ≡ true)
      × (same name integrator ≡ true → server_owner_consistent body ≡ true)
      × (is_owner (server_zig_role body) ≡ true → same name integrator ≡ true)
unfolding check_claude_role
role_tests name tools body h = (
  λ k l. ground arith,
  λ k l. ground arith,
  λ k. ground arith,
  λ k. ground arith,
  λ k. ground arith,
)

check_claude_role-MayDeclare :
    (name : Text) (tools : List Text) (body : Text)
    → check_claude_role name tools body ≡ ok tt
    → MayDeclare name tools body
check_claude_role-MayDeclare name tools body h =
    let role = server_zig_role body in
    let (a, b, c, d, e) = role_tests name tools body h in
    record {
      excluded_if = λ k l. is_excluded-excluded role (a k l);
      excluded_text = b;
      owner_if = λ k. is_owner-owner role (c ((same_iff name integrator).1 k));
      owner_text = λ k. d ((same_iff name integrator).1 k);
      owner_only_if = λ k. (same_iff name integrator).0 (e (ap is_owner k));
    }

check_model-eq-ok :
    (name : Text) (meta : Meta)
    → check_model name meta ≡ ok tt
    → (scalar meta (text "model") ≡ (model_effort (get? name claude_model_effort)).0)
      × (scalar meta (text "effort") ≡ (model_effort (get? name claude_model_effort)).1)
unfolding check_model
check_model-eq-ok name meta h =
    let p = model_effort (get? name claude_model_effort) in
    both_same (scalar meta (text "model")) p.0 (scalar meta (text "effort")) p.1 _ h
  where
    both_same :
        (a b c d : Text) (e : Failure)
        → fail_if (not (same a b) || not (same c d)) e ≡ ok tt
        → (a ≡ b) × (c ≡ d)
    both_same a b c d e h = (ground (arith, same_iff a b), ground (arith, same_iff c d))

check_skill_names-All :
    (known : List Text) (name : Text) (ss : List Text)
    → check_skill_names known name ss ≡ ok tt
    → All (λ s. member s known ≡ true) ss
unfolding check_skill_names
check_skill_names-All known name [] h = tt
check_skill_names-All known name (s ∷ ss) h =
    fail_if-elim (not (member s known)) _ _ h
      λ found rest. (ground arith, check_skill_names-All known name ss rest)

name_tests :
    (name stem : Text)
    → (not (same name stem) || not (is_name name)) ≡ false
    → (name ≡ stem) × (is_name stem ≡ true)
name_tests name stem h =
    let name_is : name ≡ stem = ground (arith, same_iff name stem) in
    (name_is, subst (λ n. is_name n ≡ true) name_is (ground arith))

-- What an accepted file meets, and what it adds to the names.
check_claude-IsAccepted :
    (known : List Text) (f : ClaudeFile) (names names' : List Text)
    → check_claude known f names ≡ ok names'
    → IsAccepted known f × (member f.stem names ≡ false) × (names' ≡ add f.stem names)
unfolding check_claude
check_claude-IsAccepted known f names names' h =
    >>=-elim (frontmatter f.stem f.body) _ h λ meta meta_is h₁.
      let name = scalar meta (text "name") in
      let tools = csv meta (text "tools") in
      fail_if-elim (not (same name f.stem) || not (is_name name)) _ _ h₁ λ good_name h₂.
        fail_if-elim (is_empty (scalar meta (text "description"))) _ _ h₂ λ described h₃.
          >>=-elim (check_tools name (get? name claude_tools) tools) _ h₃ λ u tools_ok h₄.
            >>=-elim (agent_body f.body) _ h₄ λ body body_is h₅.
              >>=-elim (check_claude_role name tools body) _ h₅ λ u₁ role h₆.
                >>=-elim (check_model name meta) _ h₆ λ u₂ model h₇.
                  >>=-elim (check_skill_names known name (csv meta (text "skills"))) _ h₇
                    λ u₃ skills h₈. fail_if-elim (member name names) _ _ h₈ λ fresh h₉.
                      let (name_is, named) = name_tests name f.stem good_name in
                      let (expected, listed, tools_are) =
                        check_tools-eq-ok name (get? name claude_tools) tools tools_ok in
                      let (model_is, effort_is) = check_model-eq-ok name meta model in
                      (
                        record {
                          meta = meta;
                          body = body;
                          expected = expected;
                          meta_is = meta_is;
                          body_is = body_is;
                          name_is = name_is;
                          named = named;
                          described = described;
                          listed = subst (λ n. get? n claude_tools ≡ some expected) name_is listed;
                          tools_are = tools_are;
                          declares =
                              subst (λ n. MayDeclare n tools body) name_is
                                (check_claude_role-MayDeclare name tools body role);
                          model_is =
                              subst
                                (λ n.
                                  scalar meta (text "model")
                                  ≡ (model_effort (get? n claude_model_effort)).0)
                                name_is model_is;
                          effort_is =
                              subst
                                (λ n.
                                  scalar meta (text "effort")
                                  ≡ (model_effort (get? n claude_model_effort)).1)
                                name_is effort_is;
                          skills_known =
                              check_skill_names-All known name (csv meta (text "skills")) skills;
                        },
                        subst (λ n. member n names ≡ false) name_is fresh,
                        added h₉ ∙ ap (λ n. add n names) name_is,
                      )

-- The files pass one after another, and their stems are new and join the names.
pub data Joins (known : List Text) : List ClaudeFile → List Text → List Text → Type 0 where
  done : {names : List Text} → Joins known [] names names
  join :
      {f : ClaudeFile} {fs : List ClaudeFile} {names names' : List Text}
      → IsAccepted known f
      → member f.stem names ≡ false
      → Joins known fs (add f.stem names) names'
      → Joins known (f ∷ fs) names names'

-- The loop of `validate_claude` succeeds only on accepted files with stems of their own.
pub check_claude_files-Joins :
    (known : List Text) (fs : List ClaudeFile) (names names' : List Text)
    → check_claude_files known fs names ≡ ok names'
    → Joins known fs names names'
unfolding check_claude_files
check_claude_files-Joins known [] names names' h = subst (Joins known [] names) (sym (added h)) done
check_claude_files-Joins known (f ∷ fs) names names' h =
    >>=-elim (check_claude known f names) _ h λ names₁ first rest.
      let (accepted, fresh, e) = check_claude-IsAccepted known f names names₁ first in
      join accepted fresh (
        subst (λ n. Joins known fs n names') e
          (check_claude_files-Joins known fs names₁ names' rest))
