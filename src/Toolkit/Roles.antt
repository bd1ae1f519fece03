-- ===== src/Toolkit/Roles.antt =====
-- The markers of authority over server.zig in the instructions of an agent.
pub mod Markers
use orochi.Prelude.{ℕ, Bool, true, false, not, ◌&&◌, ◌||◌, List, [], ◌∷◌, ◌++◌, ◌==◌, if◌then◌else◌}
use orochi.Text.{Text, text, is_space, same, starts_with, contains, add, strip, lower}
use orochi.Text.Split.{splitlines}
use orochi.Text.Find.{without, count}

-- `owner`, `excluded` or the empty text.
pub data Role : Type 0 where
  owner excluded no_role : Role

abbrev pub is_owner : Role → Bool
is_owner owner = true
is_owner excluded = false
is_owner no_role = false

abbrev pub is_excluded : Role → Bool
is_excluded owner = false
is_excluded excluded = true
is_excluded no_role = false

-- The lines of a text that are markers, stripped and in lower case, as a set.
unfoldable pub markers_in : List Text → List Text → List Text
unfolding strip lower starts_with add
markers_in found [] = found
markers_in found (l ∷ ls) =
    let marker = lower (strip l) in
    markers_in (if starts_with marker (text "server_zig_role:") then add marker found else found) ls

abbrev pub role_of : List Text → Role
role_of [] = no_role
role_of (marker ∷ []) =
    if same marker (text "server_zig_role: owner")
    then owner
    else if same marker (text "server_zig_role: excluded")
    then excluded
    else no_role
role_of (m ∷ n ∷ r) = no_role

-- `server_zig_role`
unfoldable pub server_zig_role : Text → Role
unfolding markers_in without splitlines
server_zig_role t = role_of (markers_in [] (splitlines (without b'`' t)))

-- Without backticks, in lower case.
abbrev pub normalized : Text → Text
normalized t = lower (without b'`' t)

-- `server_exclusion_consistent`
unfoldable pub server_exclusion_consistent : Text → Bool
unfolding lower without contains count
server_exclusion_consistent t =
    contains (normalized t) (text "never edit src/daemon/server.zig")
    && count (text "server.zig") (normalized t) == 1

-- `re.split(r";|\n|(?<=\.)\s+", s)`: the clause read so far, whether white space is being taken
-- away behind a full stop, and the last character.
unfoldable pub clauses_from : Text → Bool → ℕ → Text → List Text
unfolding is_space
clauses_from cur skipping last [] = cur ∷ []
clauses_from cur skipping last (c ∷ s) = elim (skipping && is_space c) [
  | true ↦ clauses_from cur true c s
  | false ↦ elim (c == b';' || c == b'\n' || last == b'.' && is_space c) [
    | true ↦ cur ∷ clauses_from [] (last == b'.' && is_space c && not (c == b'\n')) c s
    | false ↦ clauses_from (cur ++ c ∷ []) false c s
  ]
]

-- Some clause begins with the text.
unfoldable pub any_clause : Text → List Text → Bool
unfolding strip starts_with
any_clause p [] = false
any_clause p (c ∷ cs) = starts_with (strip c) p || any_clause p cs

-- `server_owner_consistent`
unfoldable pub server_owner_consistent : Text → Bool
unfolding lower without count clauses_from any_clause
server_owner_consistent t =
    count (text "server.zig") (normalized t) == 1
    && any_clause (text "hold the permanent named-role reservation on src/daemon/server.zig")
        (clauses_from [] false 0 (normalized t))
