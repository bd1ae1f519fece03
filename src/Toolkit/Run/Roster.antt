-- ===== src/Toolkit/Run/Roster.antt =====
-- The agents of a validated repository by name: which there are, and how many.
use orochi.Prelude.{List, [], ◌∷◌, ◌≡◌, refl, sym, ap, subst, ◌∙◌, arith, Has, here, there, length}
use orochi.Text.{Text, same, member}
use orochi.Text.Order.{Distinct}
use orochi.Text.Sets.{Grows-eq, Grows-Distinct, set_equal-member, set_equal-length}
use orochi.Toolkit.Checks.{ok}
use orochi.Toolkit.Policy.{required_shared, claude_tools, keys}
use orochi.Toolkit.Skills.{SkillFile}
use orochi.Toolkit.Run.{Tree, skill_dirs, Counts, main}
use orochi.Toolkit.Run.Success.{stems, codex_stems, claude_stems, IsGood, main-IsGood}

pub Has-stems {ℓ} :
    {A : Type ℓ} (name : A → Text) (f : A) (fs : List A) → Has f fs → Has (name f) (stems name fs)
Has-stems name f [] m = elim m [ ]
Has-stems name f (g ∷ fs) here = here
Has-stems name f (g ∷ fs) (there m) = there (Has-stems name f fs m)

pub stems-Has {ℓ} :
    {A : Type ℓ} (name : A → Text) (n : Text) (fs : List A)
    → Has n (stems name fs)
    → (f : A) × Has f fs × (name f ≡ n)
stems-Has name n [] m = elim m [ ]
stems-Has name n (g ∷ fs) here = (g, here, refl)
stems-Has name n (g ∷ fs) (there m) = let (f, h, e) = stems-Has name n fs m in (f, there h, e)

length-stems {ℓ} : {A : Type ℓ} (name : A → Text) (fs : List A) → length (stems name fs) ≡ length fs
length-stems name [] = refl
length-stems name (f ∷ fs) = omega (arith, length-stems name fs)

length-skill_dirs : (fs : List SkillFile) → length (skill_dirs fs) ≡ length fs
length-skill_dirs [] = refl
length-skill_dirs (f ∷ fs) = omega (arith, length-skill_dirs fs)

codex_roster_Distinct : Distinct required_shared
unfolding required_shared member same
codex_roster_Distinct = (refl, (refl, (refl, (refl, (refl, (refl, (refl, (refl, (refl, tt)))))))))

claude_roster_Distinct : Distinct (keys claude_tools)
unfolding keys claude_tools member same
claude_roster_Distinct = (
  refl,
  (refl, (refl, (refl, (refl, (refl, (refl, (refl, (refl, (refl, (refl, (refl, tt))))))))))),
)

codex_roster_length : length required_shared ≡ 9
unfolding required_shared
codex_roster_length = refl

claude_roster_length : length (keys claude_tools) ≡ 12
unfolding keys claude_tools
claude_roster_length = refl

-- The stems are those of the roster.
pub codex_stems-member :
    {t : Tree} {c : Counts}
    → IsGood t c
    → (a : Text) → member a (codex_stems t.codex) ≡ member a required_shared
codex_stems-member g a =
    sym (ap (member a) (Grows-eq g.codex_are))
    ∙ set_equal-member g.codex required_shared g.codex_set a

pub claude_stems-member :
    {t : Tree} {c : Counts}
    → IsGood t c
    → (a : Text) → member a (claude_stems t.claude) ≡ member a (keys claude_tools)
claude_stems-member g a =
    sym (ap (member a) (Grows-eq g.claude_are))
    ∙ set_equal-member g.claude (keys claude_tools) g.claude_set a

codex_length : {t : Tree} {c : Counts} → IsGood t c → length t.codex ≡ 9
codex_length {t} g =
    let e =
      set_equal-length g.codex required_shared g.codex_set
        (subst Distinct (sym (Grows-eq g.codex_are)) (Grows-Distinct g.codex_are))
        codex_roster_Distinct in
    sym (length-stems (λ f. f.stem) t.codex)
    ∙ (sym (ap length (Grows-eq g.codex_are)) ∙ (e ∙ codex_roster_length))

claude_length : {t : Tree} {c : Counts} → IsGood t c → length t.claude ≡ 12
claude_length {t} g =
    let e =
      set_equal-length g.claude (keys claude_tools) g.claude_set
        (subst Distinct (sym (Grows-eq g.claude_are)) (Grows-Distinct g.claude_are))
        claude_roster_Distinct in
    sym (length-stems (λ f. f.stem) t.claude)
    ∙ (sym (ap length (Grows-eq g.claude_are)) ∙ (e ∙ claude_roster_length))

-- If `main` succeeds, there are nine Codex agents and twelve Claude agents, and the three numbers
-- that it prints are the numbers of the files.
pub main-counts :
    (t : Tree) (c : Counts)
    → main t ≡ ok c
    → (length t.codex ≡ 9)
      × (length t.claude ≡ 12)
      × (c ≡ record { skills = length t.skills; codex = length t.codex; claude = length t.claude })
main-counts t c h =
    let g = main-IsGood t c h in
    let s : length g.skills ≡ length t.skills =
      ap length (Grows-eq g.skills_are) ∙ length-skill_dirs t.skills in
    let x : length g.codex ≡ length t.codex =
      ap length (Grows-eq g.codex_are) ∙ length-stems (λ f. f.stem) t.codex in
    let l : length g.claude ≡ length t.claude =
      ap length (Grows-eq g.claude_are) ∙ length-stems (λ f. f.stem) t.claude in
    (codex_length g, claude_length g, g.counts ∙ rw (s, x, l))
