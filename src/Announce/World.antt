-- ===== src/Announce/World.antt =====
-- What surrounds the bot of tools/announce_bot.py during one call: git, the shell, the clock, the
-- socket. One call sees one state of it. Times are milliseconds.
use orochi.Prelude.{
  ℕ, ◌/◌, ◌-◌, ◌%◌, Bool, true, false, Option, none, some, List, [], ◌∷◌, ◌++◌, ◌==◌, if◌then◌else◌,
  take,
}
use orochi.Text.{join, Text, text, cat, is_empty, strip, show, is_digit, drop_prefix}
use orochi.Text.Split.{splitlines, emit_word}
use orochi.Announce.Config.{Project, Config, rst, bold, silver, green, red}

pub record World : Type 0 where
  -- The output of `git -C repo args`, `none` if it fails.
  pub run_git : Text → List Text → Option Text
  -- The output of `bash -lc cmd` within the timeout, `none` if it fails.
  pub run_shell : Text → Option Text
  -- `os.path.isdir`
  pub is_dir : Text → Bool
  -- `f"{n / 1000:.1f}"`
  pub thousands : ℕ → Text
  -- `time.time()`
  pub now : ℕ
  -- `time.strftime('%Y-%m-%d %H:%M:%S %Z')`
  pub local_time : Text
  -- Whether `sendall` succeeds, and whether `create_connection` does.
  pub link_up : Bool
  pub connects : Bool

abbrev stripped_or : Text → Option Text → Text
stripped_or d none = d
stripped_or d (some out) = strip out

-- `git(project, *args)`
unfoldable pub git : World → Project → List Text → Text
git w p args = stripped_or [] (w.run_git p.repo args)

abbrev pub or_else : Text → Text → Text
or_else [] d = d
or_else (c ∷ s) d = c ∷ s

-- `_shell_count(cmd)`
unfoldable pub shell_count : World → Text → Text
shell_count w cmd = or_else (stripped_or (text "?") (w.run_shell cmd)) (text "?")

unfoldable pub head_line : World → Project → Text
unfolding git
head_line w p = git w p (text "log" ∷ text "-1" ∷ text "--format=%h %s" ∷ [])

abbrev strip_lines : List Text → List Text
strip_lines [] = []
strip_lines (l ∷ ls) = emit_word (strip l) (strip_lines ls)

-- `changed_files(project, rev)`
unfoldable pub changed_files : World → Project → Text → List Text
unfolding git splitlines
changed_files w p rev =
    take 8 (
      strip_lines
        (splitlines (git w p (text "show" ∷ text "--stat" ∷ text "--format=" ∷ rev ∷ []))))

-- A maximal run of digits and what follows it.
span_digits : Text → Text × Text
span_digits [] = ([], [])
span_digits (c ∷ s) = let (d, r) = span_digits s in if is_digit c then (c ∷ d, r) else ([], c ∷ s)

abbrev some_if : Bool → Text → Option Text
some_if true t = some t
some_if false t = none

abbrev first_of_two : Option Text → Option Text → Option Text
first_of_two none later = later
first_of_two (some t) later = some t

abbrev follows : List Text → Text → Bool
follows [] r = false
follows (p ∷ ps) r = elim (drop_prefix p r) [ none ↦ follows ps r | some _ ↦ true ]

-- `re.search(r"(\d+)" + one of the endings, s)`, its first group.
unfoldable pub search_count : List Text → Text → Option Text
unfolding span_digits drop_prefix
search_count endings [] = none
search_count endings (c ∷ s) =
    let later = search_count endings s in
    let (d, r) = span_digits (c ∷ s) in
    first_of_two (if is_empty d then none else some_if (follows endings r) d) later

abbrev files_part : Option Text → List Text
files_part none = []
files_part (some n) =
    cat (
      silver
      ∷ n
      ∷ rst
      ∷ text " file"
      ∷ (elim n [
        | [] ↦ text "s"
        | c ∷ r ↦ if c == b'1' then (if is_empty r then [] else text "s") else text "s"
      ])
      ∷ [])
    ∷ []

abbrev signed_part : Text → Text → Option Text → List Text
signed_part tint sign none = []
signed_part tint sign (some n) = cat (bold ∷ tint ∷ sign ∷ n ∷ rst ∷ []) ∷ []

-- `commit_stat(project, rev)`
unfoldable pub commit_stat : World → Project → Text → Text
unfolding git search_count
commit_stat w p rev =
    let out = git w p (text "show" ∷ text "--shortstat" ∷ text "--format=" ∷ rev ∷ []) in
    let files = search_count (text " file changed" ∷ text " files changed" ∷ []) out in
    let ins = search_count (text " insertion" ∷ []) out in
    let dele = search_count (text " deletion" ∷ []) out in
    or_else
      (join (text " ")
        (files_part files ++ (signed_part green (text "+") ins ++ signed_part red (text "-") dele)))
      (text "no file changes")

-- `uptime()`
unfoldable pub uptime : Config → World → Text
unfolding show
uptime cfg w =
    let s = (w.now - cfg.start) / 1000 in
    let d = s / 86400 in
    let day = s % 86400 in
    let hour = day % 3600 in
    cat (
      (if d == 0 then [] else cat (show d ∷ text "d " ∷ []))
      ∷ show (day / 3600)
      ∷ text "h "
      ∷ show (hour / 60)
      ∷ text "m "
      ∷ show (hour % 60)
      ∷ text "s"
      ∷ [])
