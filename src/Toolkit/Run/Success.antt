-- ===== src/Toolkit/Run/Success.antt =====
-- What a success of `main` says of the files: the skills are the directories, the agents are
-- accepted, and their stems are the rosters.
use orochi.Prelude.{
  Bool, true, false, not, ◌||◌, List, [], ◌∷◌, ◌≡◌, sym, ap, subst, ◌∙◌, arith, All, length,
}
use orochi.Text.{Text, text, is_empty, same, member, add}
use orochi.Text.Equal.{same_iff}
use orochi.Text.Sets.{Grows, done, grow}
use orochi.Text.Find.{set_equal}
use orochi.Toolkit.Checks.{ok, >>=-elim, fail_if-elim}
use orochi.Toolkit.Policy.{required_shared, claude_tools, keys}
use orochi.Toolkit.Frontmatter.{frontmatter, scalar}
use orochi.Toolkit.Skills.{
  SkillFile, is_name, ui_names, check_skill_text, check_skill, check_skills, validate_skills,
  is_nil,
}
use orochi.Toolkit.Codex.{CodexFile, validate_codex}
use orochi.Toolkit.Claude.{ClaudeFile, validate_claude}
use orochi.Toolkit.Codex.Accepted as CodexRules
use orochi.Toolkit.Codex.Complete.{validate_codex-iff-Joins}
use orochi.Toolkit.Claude.Accepted as ClaudeRules
use orochi.Toolkit.Claude.Complete.{validate_claude-iff-Joins}
use orochi.Toolkit.Run.{Tree, skill_dirs, Counts, main}

-- The names of some files.
abbrev pub stems {ℓ} : {A : Type ℓ} → (A → Text) → List A → List Text
stems name [] = []
stems name (f ∷ fs) = name f ∷ stems name fs

abbrev pub codex_stems : List CodexFile → List Text
codex_stems fs = stems (λ f. f.stem) fs

abbrev pub claude_stems : List ClaudeFile → List Text
claude_stems fs = stems (λ f. f.stem) fs

codex-All :
    {dirs : List Text} (fs : List CodexFile) {names names' : List Text}
    → CodexRules.Joins dirs fs names names'
    → All (CodexRules.IsAccepted dirs) fs
codex-All [] CodexRules.done = tt
codex-All (f ∷ fs) (CodexRules.join a fresh r) = (a, codex-All fs r)

codex-Grows :
    {dirs : List Text} (fs : List CodexFile) {names names' : List Text}
    → CodexRules.Joins dirs fs names names'
    → Grows (codex_stems fs) names names'
codex-Grows [] CodexRules.done = done
codex-Grows (f ∷ fs) (CodexRules.join a fresh r) = grow fresh (codex-Grows fs r)

claude-All :
    {known : List Text} (fs : List ClaudeFile) {names names' : List Text}
    → ClaudeRules.Joins known fs names names'
    → All (ClaudeRules.IsAccepted known) fs
claude-All [] ClaudeRules.done = tt
claude-All (f ∷ fs) (ClaudeRules.join a fresh r) = (a, claude-All fs r)

claude-Grows :
    {known : List Text} (fs : List ClaudeFile) {names names' : List Text}
    → ClaudeRules.Joins known fs names names'
    → Grows (claude_stems fs) names names'
claude-Grows [] ClaudeRules.done = done
claude-Grows (f ∷ fs) (ClaudeRules.join a fresh r) = grow fresh (claude-Grows fs r)

good_name : (n s : Bool) → (not n || not s) ≡ false → s ≡ true
good_name n s h = ground arith

-- One skill adds its directory, which is new.
check_skill-eq-ok :
    (f : SkillFile) (names names' : List Text)
    → check_skill f names ≡ ok names'
    → (member f.dir names ≡ false) × (names' ≡ add f.dir names)
unfolding check_skill
check_skill-eq-ok f names names' h = >>=-elim (frontmatter f.dir f.body) _ h λ meta meta_is h₁.
    let name = scalar meta (text "name") in
    fail_if-elim (not (is_name name) || not (same name f.dir)) _ _ h₁ λ named h₂.
      let name_is = (same_iff name f.dir).0 (good_name (is_name name) (same name f.dir) named) in
      fail_if-elim (is_empty (scalar meta (text "description"))) _ _ h₂ λ described h₃.
        fail_if-elim (member name names) _ _ h₃ λ fresh h₄.
          >>=-elim (check_skill_text name f.body) _ h₄ λ u texts h₅.
            fail_if-elim (not (ui_names name f.ui)) _ _ h₅ λ shown h₆. (
              subst (λ n. member n names ≡ false) name_is fresh,
              CodexRules.added h₆ ∙ ap (λ n. add n names) name_is,
            )

check_skills-Grows :
    (fs : List SkillFile) (names names' : List Text)
    → check_skills fs names ≡ ok names'
    → Grows (skill_dirs fs) names names'
unfolding check_skills
check_skills-Grows [] names names' h = subst (Grows [] names) (sym (CodexRules.added h)) done
check_skills-Grows (f ∷ fs) names names' h = >>=-elim (check_skill f names) _ h λ names₁ first rest.
    let (fresh, e) = check_skill-eq-ok f names names₁ first in
    grow fresh
      (subst (λ n. Grows (skill_dirs fs) n names') e (check_skills-Grows fs names₁ names' rest))

-- All that a success says.
pub record IsGood (t : Tree) (c : Counts) : Type 0 where
  pub skills : List Text
  pub codex : List Text
  pub claude : List Text
  pub skills_are : Grows (skill_dirs t.skills) [] skills
  pub codex_accepted : All (CodexRules.IsAccepted (skill_dirs t.skills)) t.codex
  pub codex_are : Grows (codex_stems t.codex) [] codex
  pub claude_accepted : All (ClaudeRules.IsAccepted skills) t.claude
  pub claude_are : Grows (claude_stems t.claude) [] claude
  pub exposed : t.skills_exposed ≡ true
  pub codex_set : set_equal codex required_shared ≡ true
  pub claude_set : set_equal claude (keys claude_tools) ≡ true
  pub counts : c ≡ record { skills = length skills; codex = length codex; claude = length claude }

holds : (b : Bool) → not b ≡ false → b ≡ true
holds b h = ground arith

counts_of : {c d : Counts} → ok c ≡ ok d → d ≡ c
counts_of h = cc

validate_skills-Grows :
    (fs : List SkillFile) (names : List Text)
    → validate_skills fs ≡ ok names
    → Grows (skill_dirs fs) [] names
unfolding validate_skills
validate_skills-Grows fs names h = >>=-elim (check_skills fs []) _ h λ found hf rest.
    fail_if-elim (is_nil found) _ _ rest λ some_found last.
      subst (Grows (skill_dirs fs) []) (sym (CodexRules.added last))
        (check_skills-Grows fs [] found hf)

pub main-IsGood : (t : Tree) (c : Counts) → main t ≡ ok c → IsGood t c
unfolding main
main-IsGood t c h = >>=-elim (validate_skills t.skills) _ h λ skills hs h₁.
    >>=-elim (validate_codex (skill_dirs t.skills) t.codex) _ h₁ λ codex hc h₂.
      >>=-elim (validate_claude skills t.claude) _ h₂ λ claude hl h₃.
        fail_if-elim (not t.skills_exposed) _ _ h₃ λ exposed h₄.
          fail_if-elim (not (set_equal codex required_shared)) _ _ h₄ λ codex_set h₅.
            fail_if-elim (not (set_equal claude (keys claude_tools))) _ _ h₅ λ claude_set h₆.
              let jc = (validate_codex-iff-Joins (skill_dirs t.skills) t.codex codex).0 hc in
              let jl = (validate_claude-iff-Joins skills t.claude claude).0 hl in
              record {
                skills = skills;
                codex = codex;
                claude = claude;
                skills_are = validate_skills-Grows t.skills skills hs;
                codex_accepted = codex-All t.codex jc;
                codex_are = codex-Grows t.codex jc;
                claude_accepted = claude-All t.claude jl;
                claude_are = claude-Grows t.claude jl;
                exposed = holds _ exposed;
                codex_set = holds _ codex_set;
                claude_set = holds _ claude_set;
                counts = counts_of h₆;
              }
