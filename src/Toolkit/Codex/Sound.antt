-- ===== src/Toolkit/Codex/Sound.antt =====
-- What passes `validate_codex` meets its rules.
use orochi.Prelude.{
  Bool, true, false, not, ◌&&◌, ◌||◌, Option, none, some, List, [], ◌∷◌, ◌≡◌, refl, sym, ap, subst,
  ◌∙◌, inl, inr, arith, Bool-cases, All,
}
use orochi.Text.{Text, text, is_empty, same, contains, member, add, lower}
use orochi.Text.Dict.{get?}
use orochi.Text.Equal.{same_iff}
use orochi.Toolkit.Checks.{
  toml_error, wrong_sandbox, wrong_codex_effort, ok, failed, Failure, or_fail, >>=-elim,
  fail_if-elim, or_fail-eq-ok,
}
use orochi.Toolkit.Policy.{integrator, codex_sandbox, codex_effort, excluded_writers}
use orochi.Toolkit.Roles.{
  is_owner, is_excluded, server_zig_role, server_exclusion_consistent, server_owner_consistent,
}
use orochi.Toolkit.Skills.{is_name}
use orochi.Toolkit.Codex.{
  TomlValue, str, other, Toml, CodexFile, truthy, value_is, as_text, name_for, expect, has_key,
  no_edit_contract, skill_refs, check_refs, check_codex_role, check_codex, check_codex_files,
}
use orochi.Toolkit.Codex.Accepted.{
  MayDeclare, Follows, IsAccepted, Joins, done, join, is_owner-owner, is_excluded-excluded, added,
}

or_false : (a b : Bool) → (a || b) ≡ false → (a ≡ false) × (b ≡ false)
or_false a b h = ground arith

holds_of : (a : Bool) → not a ≡ false → a ≡ true
holds_of a h = ground arith

value_is-str : (v : Option TomlValue) (t : Text) → value_is v t ≡ true → v ≡ some (str t)
value_is-str none t h = cc
value_is-str (some (str s)) t h = ground (arith, same_iff s t)
value_is-str (some (other b)) t h = cc

as_text-str : (v : Option TomlValue) {t : Text} → as_text v ≡ ok t → v ≡ some (str t)
as_text-str none h = cc
as_text-str (some (str s)) h = cc
as_text-str (some (other b)) h = cc

name_for-str :
    (stem : Text) (v : Option TomlValue) {t : Text}
    → name_for stem v ≡ ok t
    → (v ≡ some (str stem)) × (t ≡ stem) × (is_name stem ≡ true)
name_for-str stem none h = cc
name_for-str stem (some (str s)) h = elim (Bool-cases (same s stem)) [
  | inl e ↦ elim (Bool-cases (is_name s)) [
    | inl n ↦ let p = (same_iff s stem).0 e in ground arith
    | inr n ↦ ground arith
  ]
  | inr e ↦ ground arith
]
name_for-str stem (some (other b)) h = cc

expect-Follows :
    (table : List (Text × Text)) (name : Text) (v : Option TomlValue) (e : Text → Failure)
    → expect (get? name table) v (λ t. failed (e t)) ≡ ok tt
    → Follows table name v
expect-Follows table name v e h t found = elim (Bool-cases (value_is v t)) [
  | inl i ↦ value_is-str v t i
  | inr i ↦ absurd (ground arith)
]

no_model_of : (v : Option TomlValue) → has_key v ≡ false → v ≡ none
no_model_of none h = refl
no_model_of (some v) h = cc

truthy_text :
    (v : Option TomlValue) (t : Text) → v ≡ some (str t) → truthy v ≡ true → is_empty t ≡ false
truthy_text v t e h = ground (arith, ap truthy e)

check_refs-All :
    (dirs : List Text) (name : Text) (rs : List Text)
    → check_refs dirs name rs ≡ ok tt
    → All (λ r. member r dirs ≡ true) rs
unfolding check_refs
check_refs-All dirs name [] h = tt
check_refs-All dirs name (r ∷ rs) h =
    fail_if-elim (not (member r dirs)) _ _ h
      λ known rest. (holds_of _ known, check_refs-All dirs name rs rest)

role_tests :
    (name instructions : Text)
    → check_codex_role name instructions ≡ ok tt
    → (member name excluded_writers ≡ true → is_excluded (server_zig_role instructions) ≡ true)
      × (member name excluded_writers ≡ true → server_exclusion_consistent instructions ≡ true)
      × (same name integrator ≡ true → is_owner (server_zig_role instructions) ≡ true)
      × (same name integrator ≡ true → server_owner_consistent instructions ≡ true)
      × (is_owner (server_zig_role instructions) ≡ true → same name integrator ≡ true)
unfolding check_codex_role
role_tests name instructions h =
    (λ k. ground arith, λ k. ground arith, λ k. ground arith, λ k. ground arith, λ k. ground arith)

check_codex_role-MayDeclare :
    (name instructions : Text)
    → check_codex_role name instructions ≡ ok tt
    → MayDeclare name instructions
check_codex_role-MayDeclare name instructions h =
    let role = server_zig_role instructions in
    let (a, b, c, d, e) = role_tests name instructions h in
    record {
      excluded_if = λ k. is_excluded-excluded role (a k);
      excluded_text = b;
      owner_if = λ k. is_owner-owner role (c ((same_iff name integrator).1 k));
      owner_text = λ k. d ((same_iff name integrator).1 k);
      owner_only_if = λ k. (same_iff name integrator).0 (e (ap is_owner k));
    }

promise :
    (description instructions : Text) (d : Toml) (p : Bool)
    → no_edit_contract description d ≡ ok p
    → get? (text "developer_instructions") d ≡ some (str instructions)
    → p ≡ (
        contains (lower description) (text "without editing source")
        || contains (lower instructions) (text "remain read-only"))
unfolding no_edit_contract
promise description instructions d p h e =
    elim (Bool-cases (contains (lower description) (text "without editing source"))) [
      | inl i ↦ ground arith
      | inr i ↦ ground (arith, ap as_text e)
    ]

-- A promise not to edit goes with a test that refuses it elsewhere.
kept_promise :
    (p q : Bool) (v : Option TomlValue) (t : Text)
    → (p && not (value_is v t)) ≡ false
    → p ≡ q
    → q ≡ true
    → v ≡ some (str t)
kept_promise p q v t h e k = value_is-str v t (ground arith)

or_fields : (a b : Bool) → (not a || not b) ≡ false → (a ≡ true) × (b ≡ true)
or_fields a b h = ground arith

-- What an accepted file meets, and what it adds to the names.
check_codex-IsAccepted :
    (dirs : List Text) (f : CodexFile) (names names' : List Text)
    → check_codex dirs f names ≡ ok names'
    → IsAccepted dirs f × (member f.stem names ≡ false) × (names' ≡ add f.stem names)
unfolding check_codex
check_codex-IsAccepted dirs f names names' h = >>=-elim (or_fail f.toml toml_error) _ h λ d hd h₁.
    >>=-elim (name_for f.stem (get? (text "name") d)) _ h₁ λ name hn h₂.
      fail_if-elim
        (not (truthy (get? (text "description") d))
          || not (truthy (get? (text "developer_instructions") d)))
        _ _ h₂
        λ truths h₃. fail_if-elim (member name names) _ _ h₃ λ fresh h₄.
          >>=-elim
            (expect (get? name codex_sandbox) (get? (text "sandbox_mode") d)
              (λ t. failed (wrong_sandbox name t)))
            _ h₄
            λ u sandbox h₅.
              >>=-elim (as_text (get? (text "description") d)) _ h₅ λ description described h₆.
                >>=-elim (no_edit_contract description d) _ h₆ λ no_edit contract h₇.
                  fail_if-elim
                    (no_edit && not (value_is (get? (text "sandbox_mode") d) (text "read-only"))) _
                    _ h₇
                    λ kept h₈.
                      >>=-elim
                        (expect (get? name codex_effort) (get? (text "model_reasoning_effort") d)
                          (λ t. failed (wrong_codex_effort name t)))
                        _ h₈
                        λ u' effort h₉.
                          fail_if-elim (has_key (get? (text "model") d)) _ _ h₉ λ unpinned h₁₀.
                            >>=-elim (as_text (get? (text "developer_instructions") d)) _ h₁₀
                              λ instructions instructed h₁₁.
                                >>=-elim (check_codex_role name instructions) _ h₁₁ λ u'' role h₁₂.
                                  >>=-elim (check_refs dirs name (skill_refs instructions)) _ h₁₂
                                    λ u₃ refs h₁₃.
                                      let (stem_is, name_is, named) =
                                        name_for-str f.stem (get? (text "name") d) hn in
                                      let (t, i) =
                                        or_fields (truthy (get? (text "description") d))
                                          (truthy (get? (text "developer_instructions") d))
                                          truths in
                                      let description_is =
                                        as_text-str (get? (text "description") d) described in
                                      let instructions_are =
                                        as_text-str (get? (text "developer_instructions") d)
                                          instructed in
                                      (
                                        record {
                                          doc = d;
                                          description = description;
                                          instructions = instructions;
                                          toml_is = or_fail-eq-ok f.toml toml_error hd;
                                          name_is = stem_is;
                                          description_is = description_is;
                                          instructions_are = instructions_are;
                                          no_model = no_model_of (get? (text "model") d) unpinned;
                                          named = named;
                                          described =
                                              truthy_text (get? (text "description") d) description
                                                description_is t;
                                          instructed =
                                              truthy_text (get? (text "developer_instructions") d)
                                                instructions instructions_are i;
                                          sandbox_follows =
                                              subst
                                                (λ n.
                                                  Follows codex_sandbox n
                                                    (get? (text "sandbox_mode") d))
                                                name_is
                                                (expect-Follows codex_sandbox name
                                                  (get? (text "sandbox_mode") d)
                                                  (wrong_sandbox name) sandbox);
                                          effort_follows =
                                              subst
                                                (λ n.
                                                  Follows codex_effort n
                                                    (get? (text "model_reasoning_effort") d))
                                                name_is
                                                (expect-Follows codex_effort name
                                                  (get? (text "model_reasoning_effort") d)
                                                  (wrong_codex_effort name) effort);
                                          promise_kept =
                                              kept_promise no_edit _ (get? (text "sandbox_mode") d)
                                                (text "read-only") kept
                                                (promise description instructions d no_edit contract
                                                  instructions_are);
                                          declares =
                                              subst (λ n. MayDeclare n instructions) name_is
                                                (check_codex_role-MayDeclare name instructions
                                                  role);
                                          refs_known =
                                              check_refs-All dirs name (skill_refs instructions)
                                                refs;
                                        },
                                        subst (λ n. member n names ≡ false) name_is fresh,
                                        added h₁₃ ∙ ap (λ n. add n names) name_is,
                                      )

-- The loop of `validate_codex` succeeds only on accepted files with stems of their own.
pub check_codex_files-Joins :
    (dirs : List Text) (fs : List CodexFile) (names names' : List Text)
    → check_codex_files dirs fs names ≡ ok names'
    → Joins dirs fs names names'
unfolding check_codex_files
check_codex_files-Joins dirs [] names names' h = subst (Joins dirs [] names) (sym (added h)) done
check_codex_files-Joins dirs (f ∷ fs) names names' h =
    >>=-elim (check_codex dirs f names) _ h λ names₁ first rest.
      let (accepted, fresh, e) = check_codex-IsAccepted dirs f names names₁ first in
      join accepted fresh
        (subst (λ n. Joins dirs fs n names') e (check_codex_files-Joins dirs fs names₁ names' rest))
