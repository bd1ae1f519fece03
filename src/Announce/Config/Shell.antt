-- ===== src/Announce/Config/Shell.antt =====
-- The counting commands of tools/announce_bot.py, and `shlex.quote` for the paths in them.
use orochi.Prelude.{ℕ, Bool, true, ◌||◌, ◌&&◌, [], ◌∷◌, ◌++◌, leb, ◌==◌, if◌then◌else◌}
use orochi.Text.{Text, text, cat, is_digit}

-- A character that `shlex.quote` leaves as it is.
abbrev is_safe : ℕ → Bool
is_safe c =
    is_digit c
    || leb b'a' c && leb c b'z'
    || leb b'A' c && leb c b'Z'
    || c == b'@'
    || c == b'%'
    || c == b'_'
    || leb b'+' c && leb c b'/'
    || c == b':'
    || c == b'='

all_safe : Text → Bool
all_safe [] = true
all_safe (c ∷ s) = is_safe c && all_safe s

-- Each single quote becomes `'"'"'`.
escape_quotes : Text → Text
escape_quotes [] = []
escape_quotes (c ∷ s) = if c == 39 then text "'\"'\"'" ++ escape_quotes s else c ∷ escape_quotes s

-- `shlex.quote`
unfoldable pub shell_quote : Text → Text
unfolding all_safe escape_quotes
shell_quote [] = text "''"
shell_quote (c ∷ s) =
    if all_safe (c ∷ s) then c ∷ s else cat (text "'" ∷ escape_quotes (c ∷ s) ∷ text "'" ∷ [])

abbrev pub onyx_repo : Text
onyx_repo = text "/home/kain/onyx"

abbrev pub onyx_server_repo : Text
onyx_server_repo = text "/home/kain/onyx-server"

unfoldable pub quoted_find_tsx : Text → Text
unfolding shell_quote
quoted_find_tsx repo =
    let q = shell_quote repo in
    cat (
      text "find "
      ∷ q
      ∷ text
          " -type d \\( -name node_modules -o -name .next -o -name out -o -name dist -o -name .git -o -name .wt -o -name .claude -o -name coverage \\) -prune -o -type f -name '*.tsx' -print | wc -l"
      ∷ [])

unfoldable pub quoted_loc_ts : Text → Text
unfolding shell_quote
quoted_loc_ts repo =
    let q = shell_quote repo in
    cat (
      text "find "
      ∷ q
      ∷ text
          " -type d \\( -name node_modules -o -name .next -o -name out -o -name dist -o -name .git -o -name .wt -o -name .claude -o -name coverage \\) -prune -o -type f \\( -name '*.ts' -o -name '*.tsx' \\) -print0 | xargs -0 -r cat 2>/dev/null | wc -l"
      ∷ [])

unfoldable pub quoted_test_files_ts : Text → Text
unfolding shell_quote
quoted_test_files_ts repo =
    let q = shell_quote repo in
    cat (
      text "find "
      ∷ q
      ∷ text
          " -type d \\( -name node_modules -o -name .next -o -name out -o -name dist -o -name .git -o -name .wt -o -name .claude -o -name coverage \\) -prune -o -type f \\( -name '*.test.ts' -o -name '*.test.tsx' -o -name '*.spec.ts' -o -name '*.spec.tsx' \\) -print | wc -l"
      ∷ [])

unfoldable pub quoted_test_blocks_zig : Text → Text
unfolding shell_quote
quoted_test_blocks_zig repo =
    let q = shell_quote repo in
    cat (
      text "find "
      ∷ q
      ∷ text
          "/src -type f -name '*.zig' -exec grep -hE '^[[:space:]]*test[[:space:]]+\"' {} + 2>/dev/null | wc -l"
      ∷ [])

unfoldable pub quoted_find_zig : Text → Text
unfolding shell_quote
quoted_find_zig repo =
    let q = shell_quote repo in
    cat (text "find " ∷ q ∷ text "/src -name '*.zig' ! -name 'root.zig' | wc -l" ∷ [])

unfoldable pub quoted_loc_zig : Text → Text
unfolding shell_quote
quoted_loc_zig repo =
    let q = shell_quote repo in
    cat
      (text "find " ∷ q ∷ text "/src -name '*.zig' ! -name 'root.zig' -exec cat {} + | wc -l" ∷ [])
