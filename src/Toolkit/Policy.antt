-- ===== src/Toolkit/Policy.antt =====
-- The tables of the validator. A set is a list.
use orochi.Prelude.{not, ◌&&◌, List, [], ◌∷◌, if◌then◌else◌}
use orochi.Text.{Text, text, same}

abbrev pub integrator : Text
integrator = text "onyx-server-integrator"

-- `REQUIRED_SHARED`
unfoldable pub required_shared : List Text
required_shared =
    text "zig-coder"
    ∷ text "onyx-session"
    ∷ text "onyx-server-integrator"
    ∷ text "onyx-server-dst"
    ∷ text "onyx-reviewer"
    ∷ text "onyx-release-gate"
    ∷ text "onyx-server-deploy"
    ∷ text "onyx-docs"
    ∷ text "onyx-agent-architect"
    ∷ []

-- `CODEX_SANDBOX`
unfoldable pub codex_sandbox : List (Text × Text)
codex_sandbox =
    (text "onyx-agent-architect", text "read-only")
    ∷ (text "onyx-reviewer", text "read-only")
    ∷ (text "onyx-server-deploy", text "danger-full-access")
    ∷ (text "onyx-docs", text "workspace-write")
    ∷ (text "onyx-server-dst", text "workspace-write")
    ∷ (text "onyx-release-gate", text "read-only")
    ∷ (text "onyx-server-integrator", text "workspace-write")
    ∷ (text "onyx-session", text "workspace-write")
    ∷ (text "zig-coder", text "workspace-write")
    ∷ []

-- `CODEX_EFFORT`
unfoldable pub codex_effort : List (Text × Text)
codex_effort =
    (text "zig-coder", text "high")
    ∷ (text "onyx-release-gate", text "high")
    ∷ (text "onyx-docs", text "high")
    ∷ (text "onyx-session", text "xhigh")
    ∷ (text "onyx-server-integrator", text "xhigh")
    ∷ (text "onyx-server-dst", text "xhigh")
    ∷ (text "onyx-reviewer", text "xhigh")
    ∷ (text "onyx-server-deploy", text "xhigh")
    ∷ (text "onyx-agent-architect", text "xhigh")
    ∷ []

abbrev writers : List Text
writers =
    text "Read"
    ∷ text "Grep"
    ∷ text "Glob"
    ∷ text "Bash"
    ∷ text "Write"
    ∷ text "Edit"
    ∷ text "Skill"
    ∷ []

abbrev runners : List Text
runners = text "Read" ∷ text "Grep" ∷ text "Glob" ∷ text "Bash" ∷ text "Skill" ∷ []

-- `CLAUDE_TOOLS`
unfoldable pub claude_tools : List (Text × List Text)
claude_tools =
    (text "onyx-agent-architect", text "Read" ∷ text "Grep" ∷ text "Glob" ∷ text "Skill" ∷ [])
    ∷ (text "onyx-reviewer", text "Read" ∷ [])
    ∷ (text "onyx-fast-auditor", text "Read" ∷ [])
    ∷ (text "onyx-integration-reviewer", text "Read" ∷ [])
    ∷ (text "onyx-security-reviewer", text "Read" ∷ [])
    ∷ (text "onyx-release-gate", runners)
    ∷ (text "onyx-server-deploy-authorized", runners)
    ∷ (text "onyx-docs", writers)
    ∷ (text "onyx-server-dst-leaf", writers)
    ∷ (text "onyx-server-integrator", writers)
    ∷ (text "onyx-session", writers)
    ∷ (text "zig-coder-leaf", writers)
    ∷ []

-- The keys of a dictionary.
unfoldable pub keys {ℓ} : {V : Type ℓ} → List (Text × V) → List Text
keys [] = []
keys ((k, v) ∷ d) = k ∷ keys d

-- The comprehension of `CODEX_SERVER_EXCLUDED_WRITERS` on a table of sandboxes.
unfoldable pub excluded_writers_of : List (Text × Text) → List Text
unfolding same
excluded_writers_of [] = []
excluded_writers_of ((name, sandbox) ∷ d) =
    let rest = excluded_writers_of d in
    if not (same sandbox (text "read-only")) && not (same name integrator)
    then name ∷ rest
    else rest

-- `CODEX_SERVER_EXCLUDED_WRITERS`
unfoldable pub excluded_writers : List Text
unfolding excluded_writers_of codex_sandbox
excluded_writers = excluded_writers_of codex_sandbox

-- `CLAUDE_MODEL_EFFORT`
unfoldable pub claude_model_effort : List (Text × (Text × Text))
claude_model_effort =
    (text "onyx-fast-auditor", (text "claude-sonnet-5", text "low"))
    ∷ (text "onyx-integration-reviewer", (text "claude-sonnet-5", text "medium"))
    ∷ (text "onyx-security-reviewer", (text "claude-sonnet-5", text "high"))
    ∷ (text "onyx-release-gate", (text "claude-sonnet-5", text "medium"))
    ∷ (text "onyx-docs", (text "claude-sonnet-5", text "medium"))
    ∷ []
