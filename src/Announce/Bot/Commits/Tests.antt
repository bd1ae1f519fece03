-- ===== src/Announce/Bot/Commits/Tests.antt =====
-- Runs of the commit cards on a repository with one new commit.
use orochi.Prelude.{
  ℕ, ◌≤◌, Option, none, some, List, [], ◌∷◌, ◌≡◌, refl, All, length, if◌then◌else◌, zero, suc, true,
}
use orochi.Text.{Text, text, same, lstrip}
use orochi.Announce.Config.Projects.{onyx_server}
use orochi.Announce.World.{World}
use orochi.Announce.Bot.Commits.Subject.{commit_type, scope_of, clean_subject}
use orochi.Announce.Bot.Commits.Body.{wrap, is_boilerplate, commit_body_explain}
use orochi.Announce.Bot.Commits.Wrapped.{IsShort, commit_body_explain_bounds}
use orochi.Announce.Tests.{world}

typed : commit_type (text "fix(tls)!: TOPIC #root") ≡ text "fix"
unfolding commit_type
typed = refl

scoped : scope_of (text "fix(tls)!: TOPIC #root") ≡ text "tls"
unfolding scope_of
scoped = refl

cleaned : clean_subject (text "fix(tls)!: TOPIC #root") ≡ text "TOPIC #root"
unfolding clean_subject lstrip
cleaned = refl

untyped : clean_subject (text "fix the (a: b") ≡ text "fix the (a: b"
unfolding clean_subject lstrip
untyped = refl

signed : is_boilerplate (text "Signed-Off-By: a") ≡ true
unfolding is_boilerplate
signed = refl

abbrev faces : ℕ → Text
faces zero = []
faces (suc n) = 0x1f600 ∷ faces n

-- A text that is long in bytes and short in characters leaves an empty line behind.
wrapped_faces : wrap (faces 100) ≡ faces 100 ∷ [] ∷ []
unfolding wrap
wrapped_faces = refl

abbrev answer : Text → List Text → Option Text
answer repo [] = none
answer repo (a ∷ args) =
    if same a (text "rev-parse")
    then some (text "bbbbbbbb")
    else if same a (text "rev-list")
    then some (text "bbbbbbbb")
    else some (text "fix: x")

abbrev repository : World
repository = record world { run_git = answer }

commit_body_explain_bounds_example :
    (length (commit_body_explain repository onyx_server (text "bbbbbbbb")) ≤ 3)
    × All IsShort (commit_body_explain repository onyx_server (text "bbbbbbbb"))
commit_body_explain_bounds_example =
    commit_body_explain_bounds repository onyx_server (text "bbbbbbbb")
