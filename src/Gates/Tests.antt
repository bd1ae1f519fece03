-- ===== src/Gates/Tests.antt =====
-- Runs of the selection on concrete paths, and the properties at concrete inputs.
use orochi.Prelude.{true, List, [], ◌∷◌, ◌++◌, ◌≡◌, refl, arith}
use orochi.Text.{Text, text, member, add_all}
use orochi.Text.Order.{sorted}
use orochi.Gates.{
  changed_paths, rules, apply_rules, apply_rule, select_from, select, commands, build_line,
  release_safe_line,
}
use orochi.Gates.Select.{gates-select_cong, critical-le-gates}
use orochi.Gates.Commands.{commands-critical}

abbrev cli_config : List Text
cli_config = text "src/cli/config.zig" ∷ []

cli_config_gates :
    select cli_config ≡ record { gates = text "test-cli" ∷ text "test-config" ∷ []; critical = [] }
unfolding select select_from apply_rules apply_rule rules sorted add_all
cli_config_gates = refl

abbrev build_and_server : List Text
build_and_server = text "build.zig" ∷ text "src/daemon/server.zig" ∷ text "build.zig" ∷ []

abbrev server_and_build : List Text
server_and_build = text "src/daemon/server.zig" ∷ text "build.zig" ∷ []

build_and_server_gates :
    (select build_and_server).gates ≡ text "test" ∷ text "test-server" ∷ text "test-services" ∷ []
unfolding select select_from apply_rules apply_rule rules sorted add_all
build_and_server_gates = refl

changed_twice : changed_paths (text "b\na\n") (text "a\n\nc") ≡ text "a" ∷ text "b" ∷ text "c" ∷ []
unfolding changed_paths
changed_twice = refl

same_set : (p : Text) → member p build_and_server ≡ member p server_and_build
unfolding member
same_set p = ground arith

gates-select_cong_example : (select build_and_server).gates ≡ (select server_and_build).gates
gates-select_cong_example = gates-select_cong build_and_server server_and_build same_set

is_critical : member (text "test") (select server_and_build).critical ≡ true
unfolding select select_from apply_rules apply_rule rules add_all
is_critical = refl

critical-le-gates_example : member (text "test") (select server_and_build).gates ≡ true
critical-le-gates_example = critical-le-gates server_and_build (text "test") is_critical

commands-critical_example :
    (before behind : List Text) × (commands true server_and_build []
      ≡ before ++ (release_safe_line (text "test") ∷ behind))
    × (member (build_line (text "test")) before ≡ true)
commands-critical_example = commands-critical true server_and_build [] (text "test") is_critical
