-- ===== src/Toolkit/Codex/Complete.antt =====
-- The other direction: what meets the rules passes.
use orochi.Prelude.{
  Bool, true, false, not, ◌&&◌, ◌||◌, Option, some, List, [], ◌∷◌, ◌≡◌, ◌↔◌, refl, ap, inl, inr,
  Bool-cases, Option-cases, All,
}
use orochi.Text.{Text, text, same, contains, member, add, lower}
use orochi.Text.Dict.{get?}
use orochi.Text.Equal.{same_iff, same_refl}
use orochi.Toolkit.Checks.{ok, failed, Failure, wrong_sandbox, wrong_codex_effort}
use orochi.Toolkit.Policy.{integrator, codex_sandbox, codex_effort, excluded_writers}
use orochi.Toolkit.Roles.{
  is_owner, is_excluded, server_zig_role, server_exclusion_consistent, server_owner_consistent,
}
use orochi.Toolkit.Skills.{is_name}
use orochi.Toolkit.Codex.{
  TomlValue, str, Toml, CodexFile, value_is, name_for, expect, no_edit_contract, skill_refs,
  check_refs, check_codex_role, check_codex, check_codex_files, validate_codex,
}
use orochi.Toolkit.Codex.Sound.{check_codex_files-Joins}
use orochi.Toolkit.Codex.Accepted.{
  MayDeclare, Follows, IsAccepted, Joins, done, join, is_owner-owner,
}

name_for_stem : (stem : Text) → is_name stem ≡ true → name_for stem (some (str stem)) ≡ ok stem
name_for_stem stem h = rw (same_refl stem, h)

expect-ok :
    (table : List (Text × Text)) (name : Text) (v : Option TomlValue) (e : Text → Failure)
    → Follows table name v
    → expect (get? name table) v (λ t. failed (e t)) ≡ ok tt
expect-ok table name v e h = elim (Option-cases (get? name table)) [
  | inl i ↦ rw i
  | inr (t, i) ↦ rw (i, h t i, same_refl t)
]

check_refs-ok :
    (dirs : List Text) (name : Text) (rs : List Text)
    → All (λ r. member r dirs ≡ true) rs
    → check_refs dirs name rs ≡ ok tt
unfolding check_refs
check_refs-ok dirs name [] h = refl
check_refs-ok dirs name (r ∷ rs) h = rw h.0 (check_refs-ok dirs name rs h.1)

pub rule_test :
    (c p q : Bool) → (c ≡ true → p ≡ true) → (c ≡ true → q ≡ true) → (c && (not p || not q)) ≡ false
rule_test true p q h k = rw (h refl, k refl)
rule_test false p q h k = refl

pub owner_test : (s o : Bool) → (o ≡ true → s ≡ true) → (not s && o) ≡ false
owner_test s true h = rw (h refl)
owner_test true false h = refl
owner_test false false h = refl

check_codex_role-ok :
    (name instructions : Text)
    → MayDeclare name instructions
    → check_codex_role name instructions ≡ ok tt
unfolding check_codex_role
check_codex_role-ok name instructions m =
    let role = server_zig_role instructions in
    let owns = same_iff name integrator in
    rw (
      rule_test (member name excluded_writers) (is_excluded role)
          (server_exclusion_consistent instructions) (λ k. ap is_excluded (m.excluded_if k))
          m.excluded_text,
      rule_test (same name integrator) (is_owner role) (server_owner_consistent instructions)
          (λ k. ap is_owner (m.owner_if (owns.0 k))) (λ k. m.owner_text (owns.0 k)),
      owner_test (same name integrator) (is_owner role)
          (λ k. owns.1 (m.owner_only_if (is_owner-owner role k))),
    )

contract-ok :
    (description instructions : Text) (d : Toml)
    → get? (text "developer_instructions") d ≡ some (str instructions)
    → no_edit_contract description d
      ≡ ok (
          contains (lower description) (text "without editing source")
          || contains (lower instructions) (text "remain read-only"))
unfolding no_edit_contract
contract-ok description instructions d e =
    elim (Bool-cases (contains (lower description) (text "without editing source"))) [
      | inl i ↦ rw i
      | inr i ↦ rw (i, e)
    ]

promise_test :
    (q : Bool) (v : Option TomlValue) (t : Text)
    → (q ≡ true → v ≡ some (str t))
    → (q && not (value_is v t)) ≡ false
promise_test true v t h = rw (h refl, same_refl t)
promise_test false v t h = refl

check_codex-ok :
    (dirs : List Text) (f : CodexFile) (names : List Text)
    → IsAccepted dirs f
    → member f.stem names ≡ false
    → check_codex dirs f names ≡ ok (add f.stem names)
unfolding check_codex
check_codex-ok dirs f names a fresh = rw (
  a.toml_is,
  a.name_is,
  name_for_stem f.stem a.named,
  a.description_is,
  a.instructions_are,
  a.described,
  a.instructed,
  fresh,
  expect-ok codex_sandbox f.stem (get? (text "sandbox_mode") a.doc) (wrong_sandbox f.stem)
      a.sandbox_follows,
  contract-ok a.description a.instructions a.doc a.instructions_are,
  promise_test _ (get? (text "sandbox_mode") a.doc) (text "read-only") a.promise_kept,
  expect-ok codex_effort f.stem (get? (text "model_reasoning_effort") a.doc)
      (wrong_codex_effort f.stem) a.effort_follows,
  a.no_model,
  check_codex_role-ok f.stem a.instructions a.declares,
  check_refs-ok dirs f.stem (skill_refs a.instructions) a.refs_known,
)

check_codex_files-ok :
    (dirs : List Text) (fs : List CodexFile) (names names' : List Text)
    → Joins dirs fs names names'
    → check_codex_files dirs fs names ≡ ok names'
unfolding check_codex_files
check_codex_files-ok dirs [] names names' done = refl
check_codex_files-ok dirs (f ∷ fs) names names' (join a fresh r) =
    rw (check_codex-ok dirs f names a fresh)
      (check_codex_files-ok dirs fs (add f.stem names) names' r)

-- `validate_codex` succeeds with a set of names exactly if each file in turn is accepted by the
-- rules and has a stem of its own, and the names are the stems.
pub validate_codex-iff-Joins :
    (dirs : List Text) (fs : List CodexFile) (names : List Text)
    → (validate_codex dirs fs ≡ ok names) ↔ Joins dirs fs [] names
unfolding validate_codex
validate_codex-iff-Joins dirs fs names =
    (check_codex_files-Joins dirs fs [] names, check_codex_files-ok dirs fs [] names)
