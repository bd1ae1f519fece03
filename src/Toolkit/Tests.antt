-- ===== src/Toolkit/Tests.antt =====
-- A repository that passes, and what the theorems say of it.
use orochi.Prelude.{
  true, false, List, [], ◌∷◌, ◌++◌, ◌≡◌, ◌⊎◌, ◌≢◌, ◌↔◌, none, some, refl, Has, here, there, inr,
  length,
}
use orochi.Text.{
  Text, text, is_space, same, starts_with, contains, member, add, add_all, strip, lower,
}
use orochi.Text.Split.{splitlines, split_on, cut}
use orochi.Text.Dict.{put, get?}
use orochi.Text.Find.{set_equal, strip_char, without, count}
use orochi.Toolkit.Checks.{ok, failed, no_frontmatter, unterminated_frontmatter}
use orochi.Toolkit.Policy.{
  integrator, required_shared, codex_sandbox, excluded_writers_of, excluded_writers, claude_tools,
  keys,
}
use orochi.Toolkit.Roles.{
  excluded, server_zig_role, server_exclusion_consistent, server_owner_consistent, owner, no_role,
}
use orochi.Toolkit.Frontmatter.{
  Meta, separator, split_parts, read_field, read_line, read_lines, frontmatter, scalar, csv,
}
use orochi.Toolkit.Skills.{SkillFile}
use orochi.Toolkit.Codex.{str, Toml, CodexFile, skill_refs, validate_codex}
use orochi.Toolkit.Codex.Accepted.{is_owner-owner}
use orochi.Toolkit.Codex.Accepted as CodexRules
use orochi.Toolkit.Claude.{
  ClaudeFile, is_writer, agent_body, validate_claude, check_claude, check_claude_files,
}
use orochi.Toolkit.Claude.Accepted as ClaudeRules
use orochi.Toolkit.Run.{Tree, Counts, main}
use orochi.Toolkit.Run.Success.{codex_stems, claude_stems}
use orochi.Toolkit.Policy.{codex_effort, claude_model_effort}
use orochi.Toolkit.Roles.{markers_in, clauses_from, any_clause}
use orochi.Toolkit.Skills.{
  all_name_chars, is_name, check_skill_text, check_skill, check_skills, validate_skills,
}
use orochi.Toolkit.Codex.{
  no_edit_contract, check_refs, check_codex_role, check_codex, check_codex_files,
}
use orochi.Toolkit.Claude.{check_claude_role, check_model, check_skill_names}
use orochi.Toolkit.Run.{difference}
use orochi.Text.{lower_char, lstrip, rstrip, drop_prefix}
use orochi.Text.Find.{count_from, subset, lstrip_char, rstrip_char, name_run}
use orochi.Toolkit.Codex.Complete.{validate_codex-iff-Joins}
use orochi.Toolkit.Claude.Complete.{validate_claude-iff-Joins}
use orochi.Toolkit.Frontmatter.Errors.{frontmatter_cases}
use orochi.Toolkit.Run.Roster.{main-counts}
use orochi.Toolkit.Run.Authority.{main-codex_writers_excluded, main-claude_writers_excluded}
use orochi.Toolkit.Run.Owner.{names_where, codex_owns, claude_owns, main-one_owner}
use orochi.Toolkit.Mistakes.{is_mistake}
use orochi.Toolkit.Roles.Markers.{
  SomeMarker, AllMarkers, owner_marker, the_lines, server_zig_role-iff-AllMarkers,
}
use orochi.Toolkit.Run.Mistakes.{main-no_mistake}

-- The skill of the example and its file.
abbrev skill_file : SkillFile
skill_file = record {
  dir = text "onyx-a";
  body = text "---\nname: onyx-a\ndescription: \"One.\"\n---\nUse it.\n";
  ui = some (text "default_prompt: $onyx-a\n");
}

abbrev excluded_text : Text
excluded_text =
    text "Use $onyx-a.\n`SERVER_ZIG_ROLE: excluded`\nNever edit `src/daemon/server.zig`.\n"

abbrev owner_text : Text
owner_text =
    text
      "server_zig_role: owner\nWork. Hold the permanent named-role reservation on src/daemon/server.zig.\n"

abbrev codex_file : Text → Text → Text → Text → CodexFile
codex_file name sandbox effort instructions = record {
  stem = name;
  toml = some (
      (text "name", str name)
      ∷ (text "description", str (text "An agent."))
      ∷ (text "sandbox_mode", str sandbox)
      ∷ (text "model_reasoning_effort", str effort)
      ∷ (text "developer_instructions", str instructions)
      ∷ []);
}

abbrev codex_files : List CodexFile
codex_files =
    codex_file (text "onyx-agent-architect") (text "read-only") (text "xhigh") (text "Look.")
    ∷ codex_file (text "onyx-docs") (text "workspace-write") (text "high") excluded_text
    ∷ codex_file (text "onyx-release-gate") (text "read-only") (text "high")
        (text "Look; remain read-only.")
    ∷ codex_file (text "onyx-reviewer") (text "read-only") (text "xhigh") (text "Look.")
    ∷ codex_file (text "onyx-server-deploy") (text "danger-full-access") (text "xhigh")
        excluded_text
    ∷ codex_file (text "onyx-server-dst") (text "workspace-write") (text "xhigh") excluded_text
    ∷ codex_file (text "onyx-server-integrator") (text "workspace-write") (text "xhigh") owner_text
    ∷ codex_file (text "onyx-session") (text "workspace-write") (text "xhigh") excluded_text
    ∷ codex_file (text "zig-coder") (text "workspace-write") (text "high") excluded_text
    ∷ []

abbrev claude_file : Text → Text → Text → Text → ClaudeFile
claude_file name tools effort body = record {
  stem = name;
  body =
      text "---\nname: "
      ++ name
      ++ text "\ndescription: An agent.\ntools: "
      ++ tools
      ++ text "\nmodel: claude-sonnet-5\neffort: "
      ++ effort
      ++ text "\nskills:\n  - onyx-a\n---\n"
      ++ body;
}

abbrev all_tools : Text
all_tools = text "Read, Grep, Glob, Bash, Write, Edit, Skill"

abbrev run_tools : Text
run_tools = text "Read, Grep, Glob, Bash, Skill"

abbrev claude_files : List ClaudeFile
claude_files =
    claude_file (text "onyx-agent-architect") (text "Read, Grep, Glob, Skill") (text "high")
      (text "Look.")
    ∷ claude_file (text "onyx-docs") all_tools (text "medium") excluded_text
    ∷ claude_file (text "onyx-fast-auditor") (text "Read") (text "low") (text "Look.")
    ∷ claude_file (text "onyx-integration-reviewer") (text "Read") (text "medium") (text "Look.")
    ∷ claude_file (text "onyx-release-gate") run_tools (text "medium") excluded_text
    ∷ claude_file (text "onyx-reviewer") (text "Read") (text "high") (text "Look.")
    ∷ claude_file (text "onyx-security-reviewer") (text "Read") (text "high") (text "Look.")
    ∷ claude_file (text "onyx-server-deploy-authorized") run_tools (text "high") excluded_text
    ∷ claude_file (text "onyx-server-dst-leaf") all_tools (text "high") excluded_text
    ∷ claude_file (text "onyx-server-integrator") all_tools (text "high") owner_text
    ∷ claude_file (text "onyx-session") all_tools (text "high") excluded_text
    ∷ claude_file (text "zig-coder-leaf") all_tools (text "high") excluded_text
    ∷ []

abbrev repository : Tree
repository = record {
  skills = skill_file ∷ [];
  codex = codex_files;
  claude = claude_files;
  skills_exposed = true;
}

abbrev counts : Counts
counts = record { skills = 1; codex = 9; claude = 12 }

-- The repository passes.
passes : main repository ≡ ok counts
unfolding main validate_skills check_skills check_skill check_skill_text is_name all_name_chars
    validate_codex check_codex_files check_codex no_edit_contract check_codex_role check_refs
    skill_refs name_run drop_prefix validate_claude check_claude_files check_claude
    check_claude_role check_model check_skill_names is_writer agent_body frontmatter read_lines
    read_line read_field scalar csv split_parts server_zig_role markers_in
    server_exclusion_consistent server_owner_consistent clauses_from any_clause required_shared
    codex_sandbox codex_effort claude_tools keys excluded_writers_of excluded_writers
    claude_model_effort difference set_equal subset member same add add_all put get? without count
    count_from strip_char lstrip_char rstrip_char strip lstrip rstrip lower lower_char is_space
    starts_with contains cut splitlines split_on
passes = refl

main-counts_example :
    (length codex_files ≡ 9)
    × (length claude_files ≡ 12)
    × (counts ≡ record { skills = 1; codex = length codex_files; claude = length claude_files })
main-counts_example = main-counts repository counts passes

-- A writer of the example's Codex agents.
abbrev coder : CodexFile
coder = codex_file (text "zig-coder") (text "workspace-write") (text "high") excluded_text

abbrev coder_toml : Toml
coder_toml =
    (text "name", str (text "zig-coder"))
    ∷ (text "description", str (text "An agent."))
    ∷ (text "sandbox_mode", str (text "workspace-write"))
    ∷ (text "model_reasoning_effort", str (text "high"))
    ∷ (text "developer_instructions", str excluded_text)
    ∷ []

coder-Has : Has coder codex_files
coder-Has = there (there (there (there (there (there (there (there here)))))))

coder_writes : get? (text "sandbox_mode") coder_toml ≢ some (str (text "read-only"))
unfolding get? same
coder_writes h = cc

main-codex_writers_excluded_example :
    (instructions : Text) × (get? (text "developer_instructions") coder_toml
      ≡ some (str instructions))
    × (server_zig_role instructions ≡ excluded)
    × (server_exclusion_consistent instructions ≡ true)
main-codex_writers_excluded_example =
    main-codex_writers_excluded repository counts coder coder_toml passes coder-Has refl
      coder_writes (λ h. cc)

abbrev docs_tools : List Text
docs_tools =
    text "Read"
    ∷ text "Grep"
    ∷ text "Glob"
    ∷ text "Bash"
    ∷ text "Write"
    ∷ text "Edit"
    ∷ text "Skill"
    ∷ []

docs_listed : get? (text "onyx-docs") claude_tools ≡ some docs_tools
unfolding claude_tools get? same
docs_listed = refl

main-claude_writers_excluded_example :
    (f : ClaudeFile) × (body : Text) × Has f claude_files
    × (f.stem ≡ text "onyx-docs")
    × (agent_body f.body ≡ ok body)
    × (server_zig_role body ≡ excluded)
    × (server_exclusion_consistent body ≡ true)
main-claude_writers_excluded_example =
    main-claude_writers_excluded repository counts (text "onyx-docs") docs_tools (text "Bash")
      passes docs_listed (there (there (there here))) (inr (inr refl)) (λ h. cc)

main-one_owner_example :
    (names_where codex_owns (λ f. f.stem) codex_files ≡ integrator ∷ [])
    × (names_where claude_owns (λ f. f.stem) claude_files ≡ integrator ∷ [])
main-one_owner_example = main-one_owner repository counts passes

validate_codex-iff-Joins_example :
    (validate_codex (text "onyx-a" ∷ []) codex_files ≡ ok (codex_stems codex_files))
    ↔ CodexRules.Joins (text "onyx-a" ∷ []) codex_files [] (codex_stems codex_files)
validate_codex-iff-Joins_example =
    validate_codex-iff-Joins (text "onyx-a" ∷ []) codex_files (codex_stems codex_files)

validate_claude-iff-Joins_example :
    (validate_claude (text "onyx-a" ∷ []) claude_files ≡ ok (claude_stems claude_files))
    ↔ ClaudeRules.Joins (text "onyx-a" ∷ []) claude_files [] (claude_stems claude_files)
validate_claude-iff-Joins_example =
    validate_claude-iff-Joins (text "onyx-a" ∷ []) claude_files (claude_stems claude_files)

abbrev unended : Text
unended = text "---\nname: onyx-a\n  - one\n"

frontmatter_cases_example :
    ((starts_with unended separator ≡ false)
      × (frontmatter (text "SKILL.md") unended ≡ failed (no_frontmatter (text "SKILL.md"))))
    ⊎ ((starts_with unended separator ≡ true)
        × (split_parts unended ≡ none)
        × (frontmatter (text "SKILL.md") unended
            ≡ failed (unterminated_frontmatter (text "SKILL.md"))))
    ⊎ ((starts_with unended separator ≡ true)
        × (m : Meta) × (parts : Text × (Text × Text)) × (split_parts unended ≡ some parts)
        × (frontmatter (text "SKILL.md") unended ≡ ok m))
frontmatter_cases_example = frontmatter_cases (text "SKILL.md") unended

-- A repository whose first skill ends before its metadata do.
abbrev broken : Tree
broken = record repository { skills = record skill_file { body = unended } ∷ [] }

broken_fails : main broken ≡ failed (unterminated_frontmatter (text "onyx-a"))
unfolding main validate_skills check_skills check_skill frontmatter split_parts cut starts_with
broken_fails = refl

main-no_mistake_example : is_mistake (unterminated_frontmatter (text "onyx-a")) ≡ false
main-no_mistake_example =
    main-no_mistake broken (unterminated_frontmatter (text "onyx-a")) broken_fails

server_zig_role-iff-AllMarkers_example :
    (server_zig_role owner_text ≡ owner)
    ↔ (SomeMarker (the_lines owner_text) × AllMarkers owner_marker (the_lines owner_text))
server_zig_role-iff-AllMarkers_example = server_zig_role-iff-AllMarkers owner_text

-- Two markers declare nothing.
contradiction :
    server_zig_role (text "server_zig_role: owner\n  `Server_Zig_Role: excluded`\n") ≡ no_role
unfolding server_zig_role markers_in without splitlines strip lstrip rstrip is_space lower
    lower_char starts_with add member same
contradiction = refl
