-- ===== src/Announce/Bot/Ctcp.antt =====
-- `ctcp` of tools/announce_bot.py, and the texts that it shares with `command`.
use orochi.Prelude.{[], ◌∷◌, ◌++◌, if◌then◌else◌, length, drop, map}
use orochi.Text.{Text, text, cat, same, join, upper, strip}
use orochi.Text.Split.{partition}
use orochi.Announce.Config.{Project}
use orochi.Announce.Config.Projects.{projects}
use orochi.Announce.World.{World}
use orochi.Announce.Bot.{Bot, notice}

-- `VERSION`
abbrev pub version : Text
version = text "Announce-bot 3.2 (async build inventory · Onyx SolidJS · Onyx Server Zig)"

abbrev source_of : Project → Text
source_of p = cat (p.key ∷ text ": " ∷ p.repo ∷ [])

unfoldable pub sources : Text
sources = join (text " | ") (map source_of projects)

abbrev quoted : Text → Text
quoted body = cat ((1 ∷ []) ∷ body ∷ (1 ∷ []) ∷ [])

-- `ctcp(nick, body)`
unfoldable pub ctcp : World → Text → Text → Bot → Bot
ctcp w nick body b =
    let cmd = upper (partition (text " ") body).0 in
    let arg = strip (drop (length cmd) body) in
    if same cmd (text "VERSION")
    then notice nick (quoted (text "VERSION " ++ version)) b
    else if same cmd (text "PING")
    then notice nick (quoted (text "PING " ++ arg)) b
    else if same cmd (text "TIME")
    then notice nick (quoted (text "TIME " ++ w.local_time)) b
    else if same cmd (text "SOURCE")
    then notice nick (quoted (text "SOURCE " ++ sources)) b
    else if same cmd (text "CLIENTINFO")
    then notice nick (quoted (text "CLIENTINFO VERSION PING TIME SOURCE CLIENTINFO")) b
    else b
