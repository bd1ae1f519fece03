-- ===== src/Announce/Bot/ProjectCommands.antt =====
-- The part of `command` of tools/announce_bot.py that answers for each selected project.
use orochi.Prelude.{ℕ, zero, suc, Option, none, some, List, [], ◌∷◌, ◌++◌, ◌==◌, if◌then◌else◌, map}
use orochi.Text.{Text, text, cat, same, member, starts_with}
use orochi.Text.Split.{splitlines}
use orochi.Announce.Config.{Config, Project, bold, rst, green, cyan, grey, yel}
use orochi.Announce.World.{World, git, head_line, changed_files, commit_stat}
use orochi.Announce.Inventory.{Cache, get, inventory_status}
use orochi.Announce.Bot.{Bot, msg, notice, announce}

-- `s.replace(" ", "-")`
dashed : Text → Text
dashed [] = []
dashed (c ∷ s) = (if c == b' ' then b'-' else c) ∷ dashed s

-- `stats_lines(project)`
unfoldable pub stats_lines : World → Cache → Project → List Text
unfolding dashed
stats_lines w c p =
    let item = get c p.key in
    cat (
      bold
      ∷ cyan
      ∷ text "["
      ∷ p.key
      ∷ text "]"
      ∷ rst
      ∷ text " build :: "
      ∷ p.module_label
      ∷ text "="
      ∷ green
      ∷ item.modules
      ∷ rst
      ∷ text " "
      ∷ dashed p.test_label
      ∷ text "="
      ∷ green
      ∷ item.test_blocks
      ∷ rst
      ∷ text " loc="
      ∷ green
      ∷ item.loc
      ∷ rst
      ∷ text " commits="
      ∷ green
      ∷ item.commits
      ∷ rst
      ∷ text " "
      ∷ p.stats_suffix
      ∷ [])
    ∷ cat (
        grey
        ∷ text "["
        ∷ p.key
        ∷ text "] HEAD"
        ∷ rst
        ∷ text " "
        ∷ head_line w p
        ∷ text " "
        ∷ grey
        ∷ text "("
        ∷ commit_stat w p (text "HEAD")
        ∷ text "; "
        ∷ inventory_status w c p
        ∷ text ")"
        ∷ rst
        ∷ [])
    ∷ []

abbrev tag : Project → Text
tag p = cat (text "[" ∷ p.key ∷ text "] " ∷ [])

abbrev tagged_in : Text → Project → Text → Text
tagged_in tint p l = cat (tint ∷ tag p ∷ l ∷ rst ∷ [])

abbrev lines_or : List Text → Text → List Text
lines_or [] d = d ∷ []
lines_or (l ∷ ls) d = l ∷ ls

-- `template.format(tests=..., modules=...)`; the number is what is left to skip of a field's name.
fill : Text → Text → ℕ → Text → Text
fill tests modules n [] = []
fill tests modules (suc n) (c ∷ s) = fill tests modules n s
fill tests modules zero (c ∷ s) =
    let at_tests = starts_with (c ∷ s) (text "{tests}") in
    let at_modules = starts_with (c ∷ s) (text "{modules}") in
    let rest = fill tests modules (if at_tests then 6 else if at_modules then 8 else 0) s in
    if at_tests then tests ++ rest else if at_modules then modules ++ rest else c ∷ rest

unfoldable pub fill_in : Text → Text → Text → Text
unfolding fill
fill_in tests modules template = fill tests modules 0 template

-- The body of the loop over the projects, for one command.
unfoldable pub project_command : Config → World → Text → Text → Project → Bot → Bot
project_command cfg w cmd reply p b =
    let item = get b.inventory p.key in
    if member cmd (text "project" ∷ text "about" ∷ [])
    then announce cfg w reply p.project_lines b
    else if member cmd (text "stats" ∷ text "build" ∷ [])
    then announce cfg w reply (stats_lines w b.inventory p) b
    else if same cmd (text "tests")
    then msg reply
        (cat (
          tag p
          ∷ text "static test inventory: "
          ∷ green
          ∷ item.test_blocks
          ∷ rst
          ∷ text " "
          ∷ p.test_label
          ∷ text " ("
          ∷ inventory_status w b.inventory p
          ∷ text "; not a test run)"
          ∷ []))
        b
    else if member cmd (text "modules" ∷ text "components" ∷ [])
    then msg reply
        (cat (
          tag p
          ∷ p.module_label
          ∷ text ": "
          ∷ green
          ∷ item.modules
          ∷ rst
          ∷ text " source files"
          ∷ []))
        b
    else if member cmd (text "commit" ∷ text "head" ∷ [])
    then msg reply (cat (tag p ∷ text "HEAD " ∷ head_line w p ∷ [])) b
    else if same cmd (text "changelog")
    then announce cfg w reply
        (lines_or
          (map (tagged_in grey p)
            (splitlines (git w p (text "log" ∷ text "-5" ∷ text "--format=%h %s" ∷ []))))
          (tag p ++ text "(none)"))
        b
    else if member cmd (text "diff" ∷ text "files" ∷ [])
    then announce cfg w reply
        (lines_or (map (tagged_in grey p) (changed_files w p (text "HEAD")))
          (tag p ++ text "(no changes)"))
        b
    else if member cmd (text "progress" ∷ text "status" ∷ [])
    then msg reply (tag p ++ fill_in item.test_blocks item.modules p.progress_text) b
    else announce cfg w reply (map (tagged_in yel p) p.roadmap) b

unfoldable pub for_projects : Config → World → Text → Text → List Project → Bot → Bot
for_projects cfg w cmd reply [] b = b
for_projects cfg w cmd reply (p ∷ ps) b =
    for_projects cfg w cmd reply ps (project_command cfg w cmd reply p b)

-- `per_project_cmds`; `plan` and `roadmap` are the last branch of `project_command`.
abbrev pub per_project_cmds : List Text
per_project_cmds =
    text "project"
    ∷ text "about"
    ∷ text "stats"
    ∷ text "build"
    ∷ text "tests"
    ∷ text "modules"
    ∷ text "components"
    ∷ text "commit"
    ∷ text "head"
    ∷ text "changelog"
    ∷ text "diff"
    ∷ text "files"
    ∷ text "progress"
    ∷ text "status"
    ∷ text "plan"
    ∷ text "roadmap"
    ∷ []

unfoldable pub with_projects :
    Config → World → Text → Text → Text → Option (List Project) → Bot → Bot
with_projects cfg w cmd reply arg none b =
    notice reply (cat (text "unknown project '" ∷ arg ∷ text "' (try: onyx, onyx-server)" ∷ [])) b
with_projects cfg w cmd reply arg (some ps) b = for_projects cfg w cmd reply ps b
