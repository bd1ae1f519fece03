-- ===== src/Gates.antt =====
-- .agents/skills/onyx-server-zig-verification/scripts/select-gates.py: which build gates a change
-- of the given paths asks for, and the commands that are printed for them. The sets of the script
-- are lists without repetitions. What git prints is an argument of `changed_paths`.
pub mod Select
pub mod Commands
pub mod Tests
use orochi.Prelude.{Bool, true, false, ◌||◌, List, [], ◌∷◌, ◌++◌, if◌then◌else◌, map}
use orochi.Text.{Text, text, is_empty, same, starts_with, contains, member, add_all}
use orochi.Text.Split.{splitlines, emit_word}
use orochi.Text.Order.{sorted}

-- `contains(path, *needles)`
unfoldable pub contains_any : Text → List Text → Bool
unfolding contains
contains_any path [] = false
contains_any path (n ∷ ns) = contains path n || contains_any path ns

-- `{line for ... if line}` as a list, in the order of the outputs.
filled : List Text → List Text
filled [] = []
filled (l ∷ ls) = emit_word l (filled ls)

unfoldable pub changed_paths : Text → Text → List Text
unfolding filled splitlines sorted add_all
changed_paths tracked untracked =
    sorted (add_all (filled (splitlines tracked ++ splitlines untracked)) [])

pub record Selection : Type 0 where
  pub gates : List Text
  pub critical : List Text

-- One `if` of the loop body: its test, what it adds to `gates`, what it adds to `critical`.
pub record Rule : Type 0 where
  pub test : Bool
  pub wants : List Text
  pub needs : List Text

abbrev rule : Bool → List Text → Rule
rule t gs = record { test = t; wants = gs; needs = [] }

abbrev safe_rule : Bool → List Text → Rule
safe_rule t gs = record { test = t; wants = gs; needs = gs }

-- The `if`s of the loop body, in their order.
unfoldable pub rules : Text → List Rule
unfolding contains_any starts_with same
rules path =
    safe_rule
      (same path (text "src/daemon/server.zig")
        || contains_any path (text "world.zig" ∷ text "sessions.zig" ∷ text "deliver" ∷ []))
      (text "test-server" ∷ text "test-services" ∷ [])
    ∷ safe_rule
        (contains_any path (
          text "sessions.zig"
          ∷ text "world.zig"
          ∷ text "session_"
          ∷ text "migration_"
          ∷ text "session-"
          ∷ []))
        (text "test-session" ∷ [])
    ∷ safe_rule
        (starts_with path (text "src/daemon/helix/")
          || contains path (text "session_")
          || contains path (text "migration_"))
        (text "test-helix" ∷ text "test-services" ∷ text "test-mesh" ∷ [])
    ∷ safe_rule
        (contains_any path (text "s2s" ∷ text "undertow" ∷ text "mesh" ∷ text "relay_v2" ∷ []))
        (text "test-mesh" ∷ text "test-helix" ∷ [])
    ∷ safe_rule
        (contains_any path (
          text "event_spine"
          ∷ text "event-spine"
          ∷ text "event_history"
          ∷ text "oper_event"
          ∷ text "message_relay"
          ∷ text "lotus.zig"
          ∷ text "msgid.zig"
          ∷ []))
        (text "test-event-spine" ∷ text "test-mesh" ∷ text "test-server" ∷ [])
    ∷ rule (contains_any path (text "ircx" ∷ text "prop_store" ∷ [])) (text "test-ircx" ∷ [])
    ∷ safe_rule
        (contains_any path (
          text "service"
          ∷ text "account"
          ∷ text "sasl"
          ∷ text "webauthn"
          ∷ text "totp"
          ∷ text "tegami"
          ∷ []))
        (text "test-services" ∷ [])
    ∷ rule (contains_any path (text "config" ∷ text "onyx-server.reference.toml" ∷ []))
        (text "test-config" ∷ [])
    ∷ rule
        (contains_any path
          (text "media" ∷ text "rtp" ∷ text "rtcp" ∷ text "srtp" ∷ text "webtransport" ∷ []))
        (text "test-media" ∷ [])
    ∷ safe_rule
        (starts_with path (text "src/crypto/")
          || contains_any path (text "tls" ∷ text "x509" ∷ text "cloak" ∷ []))
        (text "test-tls" ∷ text "test-exploit" ∷ [])
    ∷ safe_rule (contains_any path (text "warden" ∷ text "security" ∷ []))
        (text "test-exploit" ∷ [])
    ∷ rule (starts_with path (text "src/cli/")) (text "test-cli" ∷ [])
    ∷ safe_rule
        (member path (text "build.zig" ∷ text "build.zig.zon" ∷ [])
          || starts_with path (text "packaging/"))
        (text "test" ∷ [])
    ∷ []

unfoldable pub apply_rule : Rule → Selection → Selection
apply_rule r s =
    if r.test
    then record { gates = add_all r.wants s.gates; critical = add_all r.needs s.critical }
    else s

unfoldable pub apply_rules : List Rule → Selection → Selection
apply_rules [] s = s
apply_rules (r ∷ rs) s = apply_rules rs (apply_rule r s)

-- The loop over the paths.
unfoldable pub select_from : Selection → List Text → Selection
select_from s [] = s
select_from s (p ∷ ps) = select_from (apply_rules (rules p) s) ps

unfoldable pub select : List Text → Selection
select paths =
    let s = select_from (record { gates = []; critical = [] }) paths in
    record { gates = sorted s.gates; critical = s.critical }

abbrev pub build_line : Text → Text
build_line gate = text "zig build " ++ gate

abbrev pub release_safe_line : Text → Text
release_safe_line gate = text "zig build " ++ gate ++ text " -Doptimize=ReleaseSafe"

-- The second loop over the gates.
unfoldable pub safe_lines : List Text → List Text → List Text
unfolding member
safe_lines critical [] = []
safe_lines critical (g ∷ gs) =
    let rest = safe_lines critical gs in
    if member g critical then release_safe_line g ∷ rest else rest

abbrev pub release_lines : List Text
release_lines =
    text "zig build all-checks"
    ∷ text "zig build release -Doptimize=ReleaseFast"
    ∷ text "zig build package -Doptimize=ReleaseFast"
    ∷ text "packaging/release.sh dist"
    ∷ text "packaging/verify-release.sh dist/SHA256SUMS"
    ∷ []

abbrev or_changed : List Text → List Text → List Text
or_changed [] changed = changed
or_changed (p ∷ ps) changed = p ∷ ps

-- The lines that `main` prints: `given` are the arguments, `changed` is what `changed_paths()`
-- returns, the flag is `--release`.
unfoldable pub commands : Bool → List Text → List Text → List Text
commands release given changed =
    let s = select (or_changed given changed) in
    text "zig build check"
    ∷ (map build_line s.gates
        ++ (safe_lines s.critical s.gates
            ++ (text "git diff --check" ∷ (if release then release_lines else []))))
