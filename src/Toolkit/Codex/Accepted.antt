-- ===== src/Toolkit/Codex/Accepted.antt =====
-- What the validator accepts as a Codex agent: the rules of the table and of the prose, one by one.
use orochi.Prelude.{true, false, ◌||◌, Option, none, some, List, [], ◌∷◌, ◌≡◌, refl, All}
use orochi.Text.{Text, text, is_empty, contains, member, add, lower}
use orochi.Text.Dict.{get?}
use orochi.Toolkit.Checks.{ok}
use orochi.Toolkit.Policy.{integrator, codex_sandbox, codex_effort, excluded_writers}
use orochi.Toolkit.Roles.{
  Role, owner, excluded, no_role, is_owner, is_excluded, server_zig_role,
  server_exclusion_consistent, server_owner_consistent,
}
use orochi.Toolkit.Skills.{is_name}
use orochi.Toolkit.Codex.{TomlValue, str, Toml, CodexFile, skill_refs}

-- The authority over server.zig that the instructions of a named agent may declare.
pub record MayDeclare (name instructions : Text) : Type 0 where
  pub excluded_if : member name excluded_writers ≡ true → server_zig_role instructions ≡ excluded
  pub excluded_text :
      member name excluded_writers ≡ true → server_exclusion_consistent instructions ≡ true
  pub owner_if : name ≡ integrator → server_zig_role instructions ≡ owner
  pub owner_text : name ≡ integrator → server_owner_consistent instructions ≡ true
  pub owner_only_if : server_zig_role instructions ≡ owner → name ≡ integrator

-- A value where the table has one for the name.
abbrev pub Follows : List (Text × Text) → Text → Option TomlValue → Type 0
Follows table name v = (t : Text) → get? name table ≡ some t → v ≡ some (str t)

pub record IsAccepted (dirs : List Text) (f : CodexFile) : Type 0 where
  pub doc : Toml
  pub description : Text
  pub instructions : Text
  pub toml_is : f.toml ≡ some doc
  pub name_is : get? (text "name") doc ≡ some (str f.stem)
  pub description_is : get? (text "description") doc ≡ some (str description)
  pub instructions_are : get? (text "developer_instructions") doc ≡ some (str instructions)
  pub no_model : get? (text "model") doc ≡ none
  pub named : is_name f.stem ≡ true
  pub described : is_empty description ≡ false
  pub instructed : is_empty instructions ≡ false
  pub sandbox_follows : Follows codex_sandbox f.stem (get? (text "sandbox_mode") doc)
  pub effort_follows : Follows codex_effort f.stem (get? (text "model_reasoning_effort") doc)
  pub promise_kept :
      (contains (lower description) (text "without editing source")
          || contains (lower instructions) (text "remain read-only"))
        ≡ true
      → get? (text "sandbox_mode") doc ≡ some (str (text "read-only"))
  pub declares : MayDeclare f.stem instructions
  pub refs_known : All (λ r. member r dirs ≡ true) (skill_refs instructions)

-- The files pass one after another, and their stems are new and join the names.
pub data Joins (dirs : List Text) : List CodexFile → List Text → List Text → Type 0 where
  done : {names : List Text} → Joins dirs [] names names
  join :
      {f : CodexFile} {fs : List CodexFile} {names names' : List Text}
      → IsAccepted dirs f
      → member f.stem names ≡ false
      → Joins dirs fs (add f.stem names) names'
      → Joins dirs (f ∷ fs) names names'

pub is_owner-owner : (r : Role) → is_owner r ≡ true → r ≡ owner
is_owner-owner owner h = refl
is_owner-owner excluded h = cc
is_owner-owner no_role h = cc

pub is_excluded-excluded : (r : Role) → is_excluded r ≡ true → r ≡ excluded
is_excluded-excluded owner h = cc
is_excluded-excluded excluded h = refl
is_excluded-excluded no_role h = cc

pub added : {a b : List Text} → ok a ≡ ok b → b ≡ a
added h = cc
