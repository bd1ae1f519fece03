-- ===== src/Toolkit/Run/Authority.antt =====
-- Who may edit server.zig in a validated repository.
use orochi.Prelude.{
  true, false, ◌≡◌, ◌⊎◌, ◌≢◌, Option, some, refl, sym, subst, ◌∙◌, List, ◌∷◌, [], if◌then◌else◌,
  arith, inl, inr, Bool-cases, All, All-Has, Has,
}
use orochi.Text.{Text, text, same, member}
use orochi.Text.Dict.{get?}
use orochi.Text.Equal.{same_iff}
use orochi.Text.Sets.{Has-member, member-Has, set_equal-member}
use orochi.Toolkit.Checks.{ok}
use orochi.Toolkit.Policy.{
  integrator, required_shared, claude_tools, keys, codex_sandbox, excluded_writers_of,
  excluded_writers,
}
use orochi.Toolkit.Roles.{excluded, server_zig_role, server_exclusion_consistent}
use orochi.Toolkit.Frontmatter.{csv}
use orochi.Toolkit.Codex.{str, Toml, CodexFile}
use orochi.Toolkit.Codex.Accepted.{is_owner-owner}
use orochi.Toolkit.Codex.Accepted as CodexRules
use orochi.Toolkit.Claude.{ClaudeFile, is_writer, agent_body}
use orochi.Toolkit.Claude.Accepted as ClaudeRules
use orochi.Toolkit.Run.{Tree, Counts, main}
use orochi.Toolkit.Run.Success.{codex_stems, claude_stems, IsGood, main-IsGood}
use orochi.Toolkit.Run.Roster.{Has-stems, stems-Has, codex_stems-member, claude_stems-member}

-- An agent of the roster is the integrator, reads only, or is an excluded writer.
abbrev Placed : Text → Type 0
Placed n =
    (n ≡ integrator)
    ⊎ ((get? n codex_sandbox ≡ some (text "read-only")) ⊎ (member n excluded_writers ≡ true))

required_shared-Placed : All Placed required_shared
unfolding required_shared codex_sandbox excluded_writers excluded_writers_of member same get?
required_shared-Placed = (
  inr (inr refl),
  (
    inr (inr refl),
    (
      inl refl,
      (
        inr (inr refl),
        (
          inr (inl refl),
          (inr (inl refl), (inr (inr refl), (inr (inr refl), (inr (inl refl), tt)))),
        ),
      ),
    ),
  ),
)

codex_Placed :
    {t : Tree} {c : Counts} → IsGood t c → (f : CodexFile) → Has f t.codex → Placed f.stem
codex_Placed {t} g f m = All-Has Placed required_shared-Placed (
    member-Has f.stem required_shared (
      sym (codex_stems-member g f.stem)
      ∙ Has-member f.stem (codex_stems t.codex) (Has-stems (λ f. f.stem) f t.codex m)))

toml_eq : {o : Option Toml} {d e : Toml} → o ≡ some d → o ≡ some e → d ≡ e
toml_eq h k = cc

-- If `main` succeeds, the instructions of every Codex agent whose sandbox is not "read-only", the
-- integrator apart, declare it excluded from server.zig and say consistently that it never edits it.
pub main-codex_writers_excluded :
    (t : Tree) (c : Counts) (f : CodexFile) (d : Toml)
    → main t ≡ ok c
    → Has f t.codex
    → f.toml ≡ some d
    → get? (text "sandbox_mode") d ≢ some (str (text "read-only"))
    → f.stem ≢ integrator
    → (instructions : Text) × (get? (text "developer_instructions") d ≡ some (str instructions))
      × (server_zig_role instructions ≡ excluded)
      × (server_exclusion_consistent instructions ≡ true)
main-codex_writers_excluded t c f d h m toml_is writes other_ =
    let g = main-IsGood t c h in
    let a = All-Has (CodexRules.IsAccepted _) g.codex_accepted m in
    let e : a.doc ≡ d = toml_eq a.toml_is toml_is in
    elim (codex_Placed g f m) [
      | inl i ↦ absurd (other_ i)
      | inr (inl r) ↦ absurd (
          writes (
            subst (λ d. get? (text "sandbox_mode") d ≡ some (str (text "read-only"))) e
              (a.sandbox_follows _ r)))
      | inr (inr x) ↦ (
        a.instructions,
        subst (λ d. get? (text "developer_instructions") d ≡ some (str a.instructions)) e
            a.instructions_are,
        a.declares.excluded_if x,
        a.declares.excluded_text x,
      )
    ]

-- What changes files: the tools `check_claude_role` looks for.
abbrev pub Changes : Text → Type 0
Changes tool = (tool ≡ text "Write") ⊎ ((tool ≡ text "Edit") ⊎ (tool ≡ text "Bash"))

Changes-is_writer :
    (tool : Text) (tools : List Text)
    → Changes tool
    → member tool tools ≡ true
    → is_writer tools ≡ true
unfolding is_writer
Changes-is_writer tool tools (inl e) h =
    let i = subst (λ x. member x tools ≡ true) e h in ground arith
Changes-is_writer tool tools (inr (inl e)) h =
    let i = subst (λ x. member x tools ≡ true) e h in ground arith
Changes-is_writer tool tools (inr (inr e)) h =
    let i = subst (λ x. member x tools ≡ true) e h in ground arith

-- A key that is found is one of the keys.
get?-member {ℓ} :
    {V : Type ℓ} (k : Text) (d : List (Text × V)) {v : V}
    → get? k d ≡ some v
    → member k (keys d) ≡ true
unfolding get? keys member
get?-member k [] h = cc
get?-member k ((j, w) ∷ d) {v} h = elim (Bool-cases (same j k)) [
  | inl e ↦ let back : same k j ≡ true = ground (arith, same_iff j k, same_iff k j) in rw back refl
  | inr e ↦
      ground (arith, get?-member k d (subst (λ b. (if b then some w else get? k d) ≡ some v) e h))
]

-- If `main` succeeds, every agent of `CLAUDE_TOOLS` whose tools there hold Write, Edit or Bash, the
-- integrator apart, has a file of its name, and the text of this file behind the frontmatter declares
-- the agent excluded from server.zig and says consistently that it never edits it.
pub main-claude_writers_excluded :
    (t : Tree) (c : Counts) (name : Text) (tools : List Text) (tool : Text)
    → main t ≡ ok c
    → get? name claude_tools ≡ some tools
    → Has tool tools
    → Changes tool
    → name ≢ integrator
    → (f : ClaudeFile) × (body : Text) × Has f t.claude
      × (f.stem ≡ name)
      × (agent_body f.body ≡ ok body)
      × (server_zig_role body ≡ excluded)
      × (server_exclusion_consistent body ≡ true)
main-claude_writers_excluded t c name tools tool h row has changes other_ =
    let g = main-IsGood t c h in
    let there_ : member name (claude_stems t.claude) ≡ true =
      claude_stems-member g name ∙ get?-member name claude_tools row in
    let (f, has_file, stem_is) =
      stems-Has (λ f. f.stem) name t.claude (member-Has name (claude_stems t.claude) there_) in
    let a = All-Has (ClaudeRules.IsAccepted g.skills) g.claude_accepted has_file in
    let same_row : a.expected ≡ tools =
      some_eq a.listed (subst (λ n. get? n claude_tools ≡ some tools) (sym stem_is) row) in
    let has_tool : member tool (csv a.meta (text "tools")) ≡ true =
      set_equal-member (csv a.meta (text "tools")) a.expected a.tools_are tool
      ∙ subst (λ ts. member tool ts ≡ true) (sym same_row) (Has-member tool tools has) in
    let w = Changes-is_writer tool (csv a.meta (text "tools")) changes has_tool in
    let apart = not_same f.stem integrator (λ e. other_ (sym stem_is ∙ e)) in
    (
      f,
      a.body,
      has_file,
      stem_is,
      a.body_is,
      a.declares.excluded_if apart w,
      a.declares.excluded_text apart w,
    )
  where
    some_eq : {o : Option (List Text)} {d e : List Text} → o ≡ some d → o ≡ some e → d ≡ e
    some_eq h k = cc

    not_same : (a b : Text) → a ≢ b → same a b ≡ false
    not_same a b n = elim (Bool-cases (same a b)) [
      | inl e ↦ absurd (n ((same_iff a b).0 e))
      | inr e ↦ e
    ]
