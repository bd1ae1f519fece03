-- ===== src/Toolkit/Claude/Complete.antt =====
-- The other direction: what meets the rules passes.
use orochi.Prelude.{Bool, true, false, not, ◌&&◌, ◌||◌, List, [], ◌∷◌, ◌≡◌, ◌↔◌, refl, ap, All}
use orochi.Text.{Text, text, same, member, add}
use orochi.Text.Dict.{get?}
use orochi.Text.Equal.{same_iff, same_refl}
use orochi.Toolkit.Checks.{ok}
use orochi.Toolkit.Frontmatter.{Meta, scalar, csv}
use orochi.Toolkit.Policy.{integrator, claude_model_effort}
use orochi.Toolkit.Roles.{
  is_owner, is_excluded, server_zig_role, server_exclusion_consistent, server_owner_consistent,
}
use orochi.Toolkit.Claude.{
  ClaudeFile, is_writer, check_claude_role, model_effort, check_model, check_skill_names,
  check_claude, check_claude_files, validate_claude,
}
use orochi.Toolkit.Codex.Accepted.{is_owner-owner}
use orochi.Toolkit.Codex.Complete.{rule_test, owner_test}
use orochi.Toolkit.Claude.Accepted.{
  MayDeclare, IsAccepted, Joins, done, join, check_claude_files-Joins,
}

writer_test :
    (s w p q : Bool)
    → (s ≡ false → w ≡ true → p ≡ true)
    → (s ≡ false → w ≡ true → q ≡ true)
    → (not s && (w && (not p || not q))) ≡ false
writer_test true w p q h k = refl
writer_test false w p q h k = rule_test w p q (h refl) (k refl)

check_claude_role-ok :
    (name : Text) (tools : List Text) (body : Text)
    → MayDeclare name tools body
    → check_claude_role name tools body ≡ ok tt
unfolding check_claude_role
check_claude_role-ok name tools body m =
    let role = server_zig_role body in
    let owns = same_iff name integrator in
    rw (
      writer_test (same name integrator) (is_writer tools) (is_excluded role)
          (server_exclusion_consistent body) (λ k l. ap is_excluded (m.excluded_if k l))
          m.excluded_text,
      rule_test (same name integrator) (is_owner role) (server_owner_consistent body)
          (λ k. ap is_owner (m.owner_if (owns.0 k))) (λ k. m.owner_text (owns.0 k)),
      owner_test (same name integrator) (is_owner role)
          (λ k. owns.1 (m.owner_only_if (is_owner-owner role k))),
    )

check_skill_names-ok :
    (known : List Text) (name : Text) (ss : List Text)
    → All (λ s. member s known ≡ true) ss
    → check_skill_names known name ss ≡ ok tt
unfolding check_skill_names
check_skill_names-ok known name [] h = refl
check_skill_names-ok known name (s ∷ ss) h = rw h.0 (check_skill_names-ok known name ss h.1)

check_model-ok :
    (name : Text) (meta : Meta)
    → scalar meta (text "model") ≡ (model_effort (get? name claude_model_effort)).0
    → scalar meta (text "effort") ≡ (model_effort (get? name claude_model_effort)).1
    → check_model name meta ≡ ok tt
unfolding check_model
check_model-ok name meta h k =
    let p = model_effort (get? name claude_model_effort) in rw (h, k, same_refl p.0, same_refl p.1)

check_claude-ok :
    (known : List Text) (f : ClaudeFile) (names : List Text)
    → IsAccepted known f
    → member f.stem names ≡ false
    → check_claude known f names ≡ ok (add f.stem names)
unfolding check_claude
check_claude-ok known f names a fresh = rw (
  a.meta_is,
  a.name_is,
  same_refl f.stem,
  a.named,
  a.described,
  a.listed,
  a.tools_are,
  a.body_is,
  check_claude_role-ok f.stem (csv a.meta (text "tools")) a.body a.declares,
  check_model-ok f.stem a.meta a.model_is a.effort_is,
  check_skill_names-ok known f.stem (csv a.meta (text "skills")) a.skills_known,
  fresh,
)

check_claude_files-ok :
    (known : List Text) (fs : List ClaudeFile) (names names' : List Text)
    → Joins known fs names names'
    → check_claude_files known fs names ≡ ok names'
unfolding check_claude_files
check_claude_files-ok known [] names names' done = refl
check_claude_files-ok known (f ∷ fs) names names' (join a fresh r) =
    rw (check_claude-ok known f names a fresh)
      (check_claude_files-ok known fs (add f.stem names) names' r)

-- `validate_claude` succeeds with a set of names exactly if each file in turn is accepted by the
-- rules and has a stem of its own, and the names are the stems.
pub validate_claude-iff-Joins :
    (known : List Text) (fs : List ClaudeFile) (names : List Text)
    → (validate_claude known fs ≡ ok names) ↔ Joins known fs [] names
unfolding validate_claude
validate_claude-iff-Joins known fs names =
    (check_claude_files-Joins known fs [] names, check_claude_files-ok known fs [] names)
