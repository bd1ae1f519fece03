-- ===== src/Toolkit/Codex/Mistakes.antt =====
-- `validate_codex` makes no mistake: what it reads of a document is there.
use orochi.Prelude.{
  true, false, Bool, not, ◌&&◌, ◌||◌, List, [], ◌∷◌, ◌≡◌, Option, none, some, refl, inl, inr, arith,
  Bool-cases,
}
use orochi.Text.{Text, text, same, contains, member, lower}
use orochi.Text.Dict.{get?}
use orochi.Toolkit.Checks.{
  Failure, ok, failed, or_fail, toml_error, codex_not_excluded, codex_not_owner, codex_cannot_own,
  wrong_sandbox, wrong_codex_effort,
}
use orochi.Toolkit.Policy.{integrator, codex_sandbox, codex_effort, excluded_writers}
use orochi.Toolkit.Roles.{
  is_owner, is_excluded, server_zig_role, server_exclusion_consistent, server_owner_consistent,
}
use orochi.Toolkit.Skills.{is_name}
use orochi.Toolkit.Codex.{
  truthy, value_is, as_text, name_for, expect, has_key, no_edit_contract, check_refs,
  check_codex_role, check_codex, check_codex_files, TomlValue, str, other, Toml, CodexFile,
  skill_refs,
}
use orochi.Toolkit.Mistakes.{is_mistake, step, guard, only_guard, from_ok, or_fail-no_mistake}

-- A value that Python takes for true is there.
pub as_text-no_mistake :
    (v : Option TomlValue) (e : Failure)
    → truthy v ≡ true
    → as_text v ≡ failed e
    → is_mistake e ≡ false
as_text-no_mistake none e t h = cc
as_text-no_mistake (some (str s)) e t h = cc
as_text-no_mistake (some (other b)) e t h = cc

pub name_for-no_mistake :
    (stem : Text) (v : Option TomlValue) (e : Failure)
    → name_for stem v ≡ failed e
    → is_mistake e ≡ false
name_for-no_mistake stem none e h = cc
name_for-no_mistake stem (some (other b)) e h = cc
name_for-no_mistake stem (some (str t)) e h =
    elim (Bool-cases (not (same t stem) || not (is_name t))) [
      | inl i ↦ cc (h, i)
      | inr i ↦ cc (h, i)
    ]

pub expect-no_mistake :
    (o : Option Text) (v : Option TomlValue) (x : Text → Failure) (e : Failure)
    → ((t : Text) → is_mistake (x t) ≡ false)
    → expect o v (λ t. failed (x t)) ≡ failed e
    → is_mistake e ≡ false
expect-no_mistake none v x e fine h = cc
expect-no_mistake (some t) v x e fine h = elim (Bool-cases (value_is v t)) [
  | inl i ↦ cc (h, i)
  | inr i ↦ cc (h, i, fine t)
]

pub no_edit_contract-no_mistake :
    (description : Text) (d : Toml) (e : Failure)
    → truthy (get? (text "developer_instructions") d) ≡ true
    → no_edit_contract description d ≡ failed e
    → is_mistake e ≡ false
unfolding no_edit_contract
no_edit_contract-no_mistake description d e t h =
    elim (Bool-cases (contains (lower description) (text "without editing source"))) [
      | inl i ↦ cc (h, i)
      | inr i ↦
          step (as_text (get? (text "developer_instructions") d))
            (λ t. ok (contains (lower t) (text "remain read-only"))) (rw i at h)
            (λ e' k. as_text-no_mistake _ e' t k) λ s k rest. from_ok rest
    ]

pub check_refs-no_mistake :
    (dirs : List Text) (name : Text) (rs : List Text) (e : Failure)
    → check_refs dirs name rs ≡ failed e
    → is_mistake e ≡ false
unfolding check_refs
check_refs-no_mistake dirs name [] e h = from_ok h
check_refs-no_mistake dirs name (r ∷ rs) e h =
    guard (not (member r dirs)) _ _ h refl λ i rest. check_refs-no_mistake dirs name rs e rest

pub check_codex_role-no_mistake :
    (name instructions : Text) (e : Failure)
    → check_codex_role name instructions ≡ failed e
    → is_mistake e ≡ false
unfolding check_codex_role
check_codex_role-no_mistake name instructions e h =
    let role = server_zig_role instructions in
    guard
      (member name excluded_writers
        && (not (is_excluded role) || not (server_exclusion_consistent instructions)))
      (codex_not_excluded name) _ h refl
      λ i h₁.
        guard
          (same name integrator
            && (not (is_owner role) || not (server_owner_consistent instructions)))
          codex_not_owner _ h₁ refl
          λ i₁ h₂.
            only_guard (not (same name integrator) && is_owner role) (codex_cannot_own name) h₂ refl

pub check_codex-no_mistake :
    (dirs : List Text) (f : CodexFile) (names : List Text) (e : Failure)
    → check_codex dirs f names ≡ failed e
    → is_mistake e ≡ false
unfolding check_codex
check_codex-no_mistake dirs f names e h =
    step (or_fail f.toml toml_error) _ h (λ e' i. or_fail-no_mistake f.toml toml_error i refl)
      λ d i h₁.
        let sandbox = get? (text "sandbox_mode") d in
        let described = truthy (get? (text "description") d) in
        let instructed = truthy (get? (text "developer_instructions") d) in
        step (name_for f.stem (get? (text "name") d)) _ h₁
          (name_for-no_mistake f.stem (get? (text "name") d))
          λ name i₁ h₂. guard (not described || not instructed) _ _ h₂ refl λ there_ h₃.
            guard (member name names) _ _ h₃ refl λ i₃ h₄.
              step (expect (get? name codex_sandbox) sandbox (λ t. failed (wrong_sandbox name t))) _
                h₄
                (λ e'.
                  expect-no_mistake (get? name codex_sandbox) sandbox (wrong_sandbox name) e'
                    (λ t. refl))
                λ u i₄ h₅.
                  step (as_text (get? (text "description") d)) _ h₅
                    (λ e'.
                      as_text-no_mistake (get? (text "description") d) e'
                        (left_true described instructed there_))
                    λ description i₅ h₆.
                      step (no_edit_contract description d) _ h₆
                        (λ e'.
                          no_edit_contract-no_mistake description d e'
                            (right_true described instructed there_))
                        λ no_edit i₆ h₇.
                          guard (no_edit && not (value_is sandbox (text "read-only"))) _ _ h₇ refl
                            λ i₇ h₈.
                              step
                                (expect (get? name codex_effort)
                                  (get? (text "model_reasoning_effort") d)
                                  (λ t. failed (wrong_codex_effort name t)))
                                _ h₈
                                (λ e'.
                                  expect-no_mistake (get? name codex_effort)
                                    (get? (text "model_reasoning_effort") d)
                                    (wrong_codex_effort name) e' (λ t. refl))
                                λ u₁ i₈ h₉.
                                  guard (has_key (get? (text "model") d)) _ _ h₉ refl λ i₉ h₁₀.
                                    step (as_text (get? (text "developer_instructions") d)) _ h₁₀
                                      (λ e'.
                                        as_text-no_mistake (get? (text "developer_instructions") d)
                                          e' (right_true described instructed there_))
                                      λ instructions i₁₀ h₁₁.
                                        step (check_codex_role name instructions) _ h₁₁
                                          (check_codex_role-no_mistake name instructions)
                                          λ u₂ i₁₁ h₁₂.
                                            step (check_refs dirs name (skill_refs instructions)) _
                                              h₁₂
                                              (check_refs-no_mistake dirs name
                                                (skill_refs instructions))
                                              λ u₃ i₁₂ h₁₃. from_ok h₁₃
  where
    left_true : (a b : Bool) → (not a || not b) ≡ false → a ≡ true
    left_true a b h = ground arith

    right_true : (a b : Bool) → (not a || not b) ≡ false → b ≡ true
    right_true a b h = ground arith

pub validate_codex-no_mistake :
    (dirs : List Text) (fs : List CodexFile) (names : List Text) (e : Failure)
    → check_codex_files dirs fs names ≡ failed e
    → is_mistake e ≡ false
unfolding check_codex_files
validate_codex-no_mistake dirs [] names e h = from_ok h
validate_codex-no_mistake dirs (f ∷ fs) names e h =
    step (check_codex dirs f names) _ h (check_codex-no_mistake dirs f names)
      λ names' i rest. validate_codex-no_mistake dirs fs names' e rest
