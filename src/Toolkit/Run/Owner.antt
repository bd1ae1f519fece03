-- ===== src/Toolkit/Run/Owner.antt =====
-- The owner of server.zig in a validated repository.
use orochi.Prelude.{
  true, false, Bool, List, [], ◌∷◌, ◌≡◌, Option, none, some, refl, sym, ap, subst, ◌∙◌, inl, inr,
  arith, if◌then◌else◌, Bool-cases, All, All-map,
}
use orochi.Text.{Text, text, same, member}
use orochi.Text.Dict.{get?}
use orochi.Text.Equal.{same_iff, same_comm}
use orochi.Text.Order.{Distinct}
use orochi.Text.Sets.{Grows-Distinct}
use orochi.Toolkit.Checks.{Checked, ok, failed}
use orochi.Toolkit.Policy.{integrator, required_shared, claude_tools, keys}
use orochi.Toolkit.Roles.{Role, owner, is_owner, server_zig_role}
use orochi.Toolkit.Codex.{TomlValue, str, other, Toml, CodexFile}
use orochi.Toolkit.Codex.Accepted.{is_owner-owner}
use orochi.Toolkit.Codex.Accepted as CodexRules
use orochi.Toolkit.Claude.{ClaudeFile, agent_body}
use orochi.Toolkit.Claude.Accepted as ClaudeRules
use orochi.Toolkit.Run.{Tree, Counts, main}
use orochi.Toolkit.Run.Success.{stems, main-IsGood}
use orochi.Toolkit.Run.Roster.{codex_stems-member, claude_stems-member}

-- The names of the files of which a test holds.
abbrev pub names_where {ℓ} : {A : Type ℓ} → (A → Bool) → (A → Text) → List A → List Text
names_where p name [] = []
names_where p name (f ∷ fs) =
    let rest = names_where p name fs in if p f then name f ∷ rest else rest

names_where-none {ℓ} :
    {A : Type ℓ} (p : A → Bool) (name : A → Text) (a : Text) (fs : List A)
    → All (λ f. p f ≡ same (name f) a) fs
    → member a (stems name fs) ≡ false
    → names_where p name fs ≡ []
unfolding member
names_where-none p name a [] h n = refl
names_where-none p name a (f ∷ fs) h n =
    let fresh : same a (name f) ≡ false = ground arith in
    rw (h.0, same_comm (name f) a, fresh) (names_where-none p name a fs h.1 (ground arith))

-- A test that holds of one name only, of distinct names with that one.
names_where-one {ℓ} :
    {A : Type ℓ} (p : A → Bool) (name : A → Text) (a : Text) (fs : List A)
    → All (λ f. p f ≡ same (name f) a) fs
    → Distinct (stems name fs)
    → member a (stems name fs) ≡ true
    → names_where p name fs ≡ a ∷ []
unfolding member
names_where-one p name a [] h d m = cc
names_where-one p name a (f ∷ fs) h d m = elim (Bool-cases (same (name f) a)) [
  | inl e ↦
      let is_a = (same_iff (name f) a).0 e in
      rw (h.0, e, is_a)
        (ap (◌∷◌ a) (
          names_where-none p name a fs h.1
            (subst (λ n. member n (stems name fs) ≡ false) is_a d.0)))
  | inr n ↦ rw (h.0, n) (names_where-one p name a fs h.1 d.1 (ground (arith, same_comm (name f) a)))
]

-- Whether a Codex agent's instructions declare ownership of server.zig.
abbrev declared_owner : Option TomlValue → Bool
declared_owner none = false
declared_owner (some (str t)) = is_owner (server_zig_role t)
declared_owner (some (other b)) = false

abbrev codex_owns_toml : Option Toml → Bool
codex_owns_toml none = false
codex_owns_toml (some d) = declared_owner (get? (text "developer_instructions") d)

abbrev pub codex_owns : CodexFile → Bool
codex_owns f = codex_owns_toml f.toml

-- Whether the text behind a Claude agent's metadata does.
abbrev claude_owns_body : Checked Text → Bool
claude_owns_body (ok b) = is_owner (server_zig_role b)
claude_owns_body (failed e) = false

abbrev pub claude_owns : ClaudeFile → Bool
claude_owns f = claude_owns_body (agent_body f.body)

owner_iff :
    (r : Role) (s : Text)
    → (s ≡ integrator → r ≡ owner)
    → (r ≡ owner → s ≡ integrator)
    → is_owner r ≡ same s integrator
owner_iff r s h k = elim (Bool-cases (same s integrator)) [
  | inl e ↦ ap is_owner (h ((same_iff s integrator).0 e)) ∙ sym e
  | inr n ↦ elim (Bool-cases (is_owner r)) [
    | inl o ↦ cc ((same_iff s integrator).1 (k (is_owner-owner r o)))
    | inr o ↦ o ∙ sym n
  ]
]

codex_owns-same :
    {dirs : List Text} (f : CodexFile)
    → CodexRules.IsAccepted dirs f
    → codex_owns f ≡ same f.stem integrator
codex_owns-same f a =
    rw (a.toml_is, a.instructions_are)
      (owner_iff (server_zig_role a.instructions) f.stem a.declares.owner_if
        a.declares.owner_only_if)

claude_owns-same :
    {known : List Text} (f : ClaudeFile)
    → ClaudeRules.IsAccepted known f
    → claude_owns f ≡ same f.stem integrator
claude_owns-same f a =
    rw a.body_is
      (owner_iff (server_zig_role a.body) f.stem a.declares.owner_if a.declares.owner_only_if)

integrator_codex : member integrator required_shared ≡ true
unfolding required_shared member same
integrator_codex = refl

integrator_claude : member integrator (keys claude_tools) ≡ true
unfolding keys claude_tools member same
integrator_claude = refl

-- If `main` succeeds, exactly one Codex agent and exactly one Claude agent declare that they own
-- server.zig, and each is the integrator.
pub main-one_owner :
    (t : Tree) (c : Counts)
    → main t ≡ ok c
    → (names_where codex_owns (λ f. f.stem) t.codex ≡ integrator ∷ [])
      × (names_where claude_owns (λ f. f.stem) t.claude ≡ integrator ∷ [])
main-one_owner t c h =
    let g = main-IsGood t c h in
    (
      names_where-one codex_owns (λ f. f.stem) integrator t.codex
          (All-map _ _ t.codex codex_owns-same g.codex_accepted) (Grows-Distinct g.codex_are)
          (codex_stems-member g integrator ∙ integrator_codex),
      names_where-one claude_owns (λ f. f.stem) integrator t.claude
          (All-map _ _ t.claude claude_owns-same g.claude_accepted) (Grows-Distinct g.claude_are)
          (claude_stems-member g integrator ∙ integrator_claude),
    )
