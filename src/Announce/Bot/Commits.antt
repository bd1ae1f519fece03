-- ===== src/Announce/Bot/Commits.antt =====
-- The commit cards of tools/announce_bot.py: `commit_lines` and what it calls.
pub mod Subject
pub mod Body
pub mod Poll
pub mod Safe
pub mod Wrapped
pub mod Tests
use orochi.Prelude.{
  ℕ, ◌+◌, ◌-◌, Bool, true, false, Option, none, some, List, [], ◌∷◌, ◌++◌, ltb, leb, ◌==◌,
  if◌then◌else◌, length, take,
}
use orochi.Text.{Text, text, cat, join, is_empty, contains, strip, show}
use orochi.Text.Split.{partition}
use orochi.Text.Number.{Number, parse_int, show_number}
use orochi.Announce.Config.{
  Project, colour, rst, bold, white, teal, green, red, cyan, grey, silver, yel, blue, pink,
}
use orochi.Text.Dict.{put, get?}
use orochi.Announce.World.{World, git, changed_files, commit_stat, or_else}
use orochi.Announce.Bot.{Bot}
use orochi.Announce.Bot.Commits.Subject.{parse_subject, commit_type, scope_of, clean_subject}
use orochi.Announce.Bot.Commits.Body.{commit_body_explain}

-- `commit_field`
unfoldable pub commit_field : World → Project → Text → Text → Text
unfolding git
commit_field w p fmt rev = git w p (text "log" ∷ text "-1" ∷ (text "--format=" ++ fmt) ∷ rev ∷ [])

abbrev table_or : Text → Option Text → Text
table_or d none = d
table_or d (some t) = t

-- `TYPE_COLOR`
abbrev type_color : List (Text × Text)
type_color =
    (text "feat", colour "09")
    ∷ (text "fix", red)
    ∷ (text "docs", cyan)
    ∷ (text "refactor", pink)
    ∷ (text "test", green)
    ∷ (text "chore", silver)
    ∷ (text "perf", yel)
    ∷ (text "build", blue)
    ∷ (text "ci", grey)
    ∷ (text "style", colour "06")
    ∷ (text "revert", colour "07")
    ∷ []

-- `TYPE_GLYPH`
abbrev type_glyph : List (Text × Text)
type_glyph =
    (text "feat", text "✨")
    ∷ (text "fix", text "🐛")
    ∷ (text "docs", text "📝")
    ∷ (text "refactor", 0x267b ∷ 0xfe0f ∷ [])
    ∷ (text "test", text "✅")
    ∷ (text "chore", text "🔧")
    ∷ (text "perf", text "⚡")
    ∷ (text "build", 0x1f3d7 ∷ 0xfe0f ∷ [])
    ∷ (text "ci", text "🤖")
    ∷ (text "style", text "🎨")
    ∷ (text "revert", text "⏪")
    ∷ []

abbrev hints : List (Text × Text)
hints =
    (text "feat", text "New capability")
    ∷ (text "fix", text "Bug fix")
    ∷ (text "docs", text "Documentation")
    ∷ (text "refactor", text "Internal restructure (no intended behavior change)")
    ∷ (text "test", text "Tests")
    ∷ (text "chore", text "Housekeeping")
    ∷ (text "perf", text "Performance")
    ∷ (text "build", text "Build / packaging")
    ∷ (text "ci", text "CI")
    ∷ (text "style", text "Style / formatting")
    ∷ (text "revert", text "Revert")
    ∷ []

-- The arrow of `tests_delta` from the last count to the new one.
unfoldable pub delta_text : Number → Number → Text
delta_text last n =
    if last.negative
    then []
    else if n.negative
    then cat
        (text " " ∷ red ∷ text "(-" ∷ show (n.magnitude + last.magnitude) ∷ text ")" ∷ rst ∷ [])
    else if n.magnitude == last.magnitude
    then []
    else if ltb last.magnitude n.magnitude
    then cat
        (text " " ∷ green ∷ text "(+" ∷ show (n.magnitude - last.magnitude) ∷ text ")" ∷ rst ∷ [])
    else cat
        (text " " ∷ red ∷ text "(-" ∷ show (last.magnitude - n.magnitude) ∷ text ")" ∷ rst ∷ [])

-- `self.last_tests[key]`, which starts at -1 for every project.
abbrev last_count : Option Number → Number
last_count none = record { negative = true; magnitude = 1 }
last_count (some n) = n

abbrev pub counted : Project → Bot → Option Number → Text × Bot
counted p b none = ([], b)
counted p b (some n) = (
  delta_text (last_count (get? p.key b.last_tests)) n,
  record b { last_tests = put p.key n b.last_tests },
)

-- `tests_delta`
unfoldable pub tests_delta : Project → Text → Bot → Text × Bot
tests_delta p tc b = counted p b (parse_int tc)

abbrev project_tag : Project → Text
project_tag p = cat (p.accent ∷ bold ∷ text "[" ∷ p.key ∷ text "]" ∷ rst ∷ [])

abbrev dot : Text
dot = cat (grey ∷ text "·" ∷ rst ∷ [])

abbrev tinted : Text → Text → Text
tinted tint s = cat (tint ∷ s ∷ rst ∷ [])

-- The lines under the headline that explain the commit.
unfoldable pub body_lines : Text → Bool → List Text → List Text
body_lines proj first [] = []
body_lines proj first (l ∷ ls) =
    (if first
      then cat (
          proj
          ∷ text " "
          ∷ tinted cyan (text "why")
          ∷ text " "
          ∷ dot
          ∷ text " "
          ∷ tinted white l
          ∷ [])
      else cat (proj ∷ text " " ∷ tinted grey (text "···") ∷ text " " ∷ tinted white l ∷ []))
    ∷ body_lines proj false ls

unfoldable pub explain_lines : Text → Text → Text → List Text → List Text
explain_lines proj typ clean [] =
    cat (
      proj
      ∷ text " "
      ∷ tinted cyan (text "about")
      ∷ text " "
      ∷ dot
      ∷ text " "
      ∷ white
      ∷ table_or (text "Update") (get? typ hints)
      ∷ text ": "
      ∷ clean
      ∷ rst
      ∷ [])
    ∷ []
explain_lines proj typ clean (l ∷ ls) = body_lines proj true (l ∷ ls)

-- The paths in the lines of `git show --stat`.
unfoldable pub touched : List Text → List Text
touched [] = []
touched (l ∷ ls) =
    if contains l (text "|") then strip (partition (text "|") l).0 ∷ touched ls else touched ls

unfoldable pub file_lines : Text → List Text → List Text
file_lines proj [] = []
file_lines proj (f ∷ fs) =
    (if leb (length (f ∷ fs)) 8
      then cat (
          proj
          ∷ text " "
          ∷ tinted grey (text "files")
          ∷ text " "
          ∷ dot
          ∷ text " "
          ∷ tinted silver (join (text " · ") (f ∷ fs))
          ∷ [])
      else cat (
          proj
          ∷ text " "
          ∷ tinted grey (text "files")
          ∷ text " "
          ∷ dot
          ∷ text " "
          ∷ silver
          ∷ show (length (f ∷ fs))
          ∷ text " paths ("
          ∷ join (text ", ") (take 4 (f ∷ fs))
          ∷ text "…)"
          ∷ rst
          ∷ []))
    ∷ []

-- The headline.
unfoldable pub headline : World → Project → Text → Text → Text
headline w p rev subj =
    let typ = commit_type subj in
    let accent = table_or cyan (get? typ type_color) in
    let scope = scope_of subj in
    cat (
      project_tag p
      ∷ text " "
      ∷ accent
      ∷ bold
      ∷ text "▌"
      ∷ rst
      ∷ table_or (text "▶") (get? typ type_glyph)
      ∷ text " "
      ∷ bold
      ∷ tinted accent (or_else (commit_field w p (text "%h") rev) (take 7 rev))
      ∷ text " "
      ∷ (if is_empty typ then tinted silver (text "commit") else bold ++ tinted accent typ)
      ∷ (if is_empty scope then [] else tinted grey (cat (text "(" ∷ scope ∷ text ")" ∷ [])))
      ∷ text " "
      ∷ white
      ∷ bold
      ∷ clean_subject subj
      ∷ rst
      ∷ [])

-- Who, when, how much.
unfoldable pub meta_line : World → Project → Text → Text → Text → Text
meta_line w p rev tc delta = cat (
    project_tag p
    ∷ text " "
    ∷ tinted grey (text "by")
    ∷ text " "
    ∷ tinted teal (or_else (commit_field w p (text "%an") rev) (text "?"))
    ∷ text " "
    ∷ dot
    ∷ text " "
    ∷ tinted silver (commit_field w p (text "%cr") rev)
    ∷ text " "
    ∷ dot
    ∷ text " "
    ∷ commit_stat w p rev
    ∷ text " "
    ∷ tinted grey (text "· test blocks")
    ∷ text " "
    ∷ bold
    ∷ tinted green tc
    ∷ delta
    ∷ text " "
    ∷ grey
    ∷ text "· #"
    ∷ git w p (text "rev-list" ∷ text "--count" ∷ text "HEAD" ∷ [])
    ∷ rst
    ∷ [])

-- `commit_lines`
unfoldable pub commit_lines : World → Project → Text → Text → Bool → Bot → List Text × Bot
commit_lines w p rev tc with_delta b =
    let subj = or_else (commit_field w p (text "%s") rev) (text "(no subject)") in
    let (delta, b') = (if with_delta then tests_delta p tc b else ([], b)) in
    let proj = project_tag p in
    (
      headline w p rev subj
          ∷ meta_line w p rev tc delta
          ∷ (explain_lines proj (commit_type subj) (clean_subject subj)
                (commit_body_explain w p rev)
              ++ (cat (
                    proj
                    ∷ text " "
                    ∷ tinted grey (text "repo")
                    ∷ text " "
                    ∷ dot
                    ∷ text " "
                    ∷ tinted silver p.repo
                    ∷ [])
                  ∷ file_lines proj (touched (changed_files w p rev)))),
      b',
    )
