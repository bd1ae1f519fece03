-- ===== src/Toolkit/Checks.antt =====
-- How the validator ends: each call of `fail` with what its message names, and the exceptions that
-- its code can raise.
use orochi.Prelude.{Bool, true, false, Option, none, some, List, ◌≡◌, refl}
use orochi.Text.{Text}

pub data Failure : Type 0 where
  -- `frontmatter`, by the file
  no_frontmatter unterminated_frontmatter : Text → Failure
  -- `validate_skills`, by the directory or the name
  invalid_skill_name missing_skill_description duplicate_skill stale_ui : Text → Failure
  skill_without_ownership skill_without_handoff no_skills : Failure
  -- `validate_codex`, by the stem or the name
  invalid_codex_name incomplete_codex duplicate_codex : Text → Failure
  wrong_sandbox wrong_codex_effort codex_missing_skill : Text → Text → Failure
  no_edit_but_writes pins_model codex_not_excluded codex_cannot_own : Text → Failure
  codex_not_owner : Failure
  -- `validate_claude`
  invalid_claude_name missing_claude_description claude_not_excluded : Text → Failure
  claude_cannot_own duplicate_claude : Text → Failure
  wrong_tools : Text → List Text → List Text → Failure
  wrong_model : Text → Text → Text → Failure
  claude_missing_skill : Text → Text → Failure
  claude_not_owner : Failure
  -- `main`
  skills_not_exposed : Failure
  codex_roster claude_roster : List Text → List Text → Failure
  -- exceptions
  assertion_error index_error key_error attribute_error toml_error : Failure

-- The value of a call that returns, or the failure that ends the script.
pub data Checked {ℓ} (A : Type ℓ) : Type ℓ where
  failed : Failure → Checked A
  ok : A → Checked A

-- What follows a failure is not run.
abbrev pub ◌>>=◌ {ℓ κ} : {A : Type ℓ} {B : Type κ} → Checked A → (A → Checked B) → Checked B
failed why >>= next = failed why
ok value >>= next = next value

-- A check that returns nothing, and what comes after it.
abbrev pub ◌>>◌ {κ} : {B : Type κ} → Checked (Unit {0}) → Checked B → Checked B
check >> after = check >>= λ done. after

infixl 5 ◌>>=◌ ◌>>◌
-- `if c: fail(...)`
abbrev pub fail_if : Bool → Failure → Checked (Unit {0})
fail_if true e = failed e
fail_if false e = ok tt

abbrev pub or_fail {ℓ} : {A : Type ℓ} → Option A → Failure → Checked A
or_fail none e = failed e
or_fail (some a) e = ok a

-- What a success says of the steps that led to it, given to the proof of what follows.
module _ {ℓ κ} {B : Type ℓ} {P : Type κ} where
  pub >>=-elim {μ} :
      {A : Type μ} (check : Checked A) (next : A → Checked B) {result : B}
      → (check >>= next) ≡ ok result
      → ((value : A) → check ≡ ok value → next value ≡ ok result → P)
      → P
  >>=-elim (failed why) next h proof = cc
  >>=-elim (ok value) next h proof = proof value refl h

  pub fail_if-elim :
      (c : Bool) (why : Failure) (after : Checked B) {result : B}
      → (fail_if c why >> after) ≡ ok result
      → (c ≡ false → after ≡ ok result → P)
      → P
  fail_if-elim true why after h proof = cc
  fail_if-elim false why after h proof = proof refl h

pub or_fail-eq-ok {ℓ} :
    {A : Type ℓ} (o : Option A) (e : Failure) {a : A} → or_fail o e ≡ ok a → o ≡ some a
or_fail-eq-ok none e h = cc
or_fail-eq-ok (some b) e h = cc
