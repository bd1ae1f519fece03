-- ===== src/Announce/Bot/Commands.antt =====
-- `command` of tools/announce_bot.py: what people ask of the bot.
use orochi.Prelude.{Bool, not, ◌&&◌, ◌||◌, [], ◌∷◌, ◌++◌, ◌==◌, if◌then◌else◌}
use orochi.Text.{Text, text, cat, is_empty, same, member, lower, strip}
use orochi.Text.Split.{partition}
use orochi.Announce.Config.{Config, bold, rst, mag}
use orochi.Announce.Config.Projects.{select_projects}
use orochi.Announce.World.{World, uptime}
use orochi.Announce.Bot.{Bot, msg, notice, send_raw, topic_protected, topic_line}
use orochi.Announce.Bot.Ctcp.{version, sources}
use orochi.Announce.Bot.ProjectCommands.{with_projects, per_project_cmds}

-- `HELP`
unfoldable pub help : Config → Text
help cfg = cat (
    text "commands: !project !stats !tests !modules/!components !commit !changelog !diff "
    ∷ text "!progress !plan !uptime !version !ping !help  (each accepts an optional "
    ∷ text "onyx/onyx-server project name, e.g. !stats onyx-server; omit for both)"
    ∷ (if is_empty cfg.admin then [] else text "  | admin: !say !announce !topic !raw")
    ∷ [])

-- The commands of the administrator.
unfoldable pub admin_command : Config → World → Text → Text → Text → Bot → Bot
admin_command cfg w nick cmd arg b =
    let (tgt, body) = partition (text " ") arg in
    if same cmd (text "say")
    then (if is_empty tgt || is_empty body then b else msg tgt body b)
    else if member cmd (text "announce" ∷ text "broadcast" ∷ [])
    then (if is_empty arg
        then b
        else msg cfg.channel (cat (bold ∷ mag ∷ text "announce" ∷ rst ∷ text " " ∷ arg ∷ [])) b)
    else if same cmd (text "topic")
    then (if is_empty arg
        then b
        else if topic_protected cfg.channel
        then notice nick (text "topic changes are disabled for " ++ cfg.channel) b
        else send_raw w (topic_line cfg arg) b)
    else if same cmd (text "raw")
    then (if is_empty arg then b else send_raw w arg b)
    else b

-- `is_admin`
unfoldable pub is_admin : Config → Text → Bool
is_admin cfg nick = not (is_empty cfg.admin) && same nick cfg.admin

-- The commands that take no project.
unfoldable pub plain_command : Config → World → Text → Text → Text → Text → Bot → Bot
plain_command cfg w nick reply cmd arg b =
    if same cmd (text "help")
    then msg reply (help cfg) b
    else if same cmd (text "uptime")
    then msg reply (text "uptime: " ++ uptime cfg w) b
    else if same cmd (text "version")
    then msg reply version b
    else if same cmd (text "ping")
    then msg reply (text "pong") b
    else if same cmd (text "source")
    then msg reply sources b
    else if is_admin cfg nick
    then admin_command cfg w nick cmd arg b
    else b

unfoldable pub bang_command : Config → World → Text → Text → Text × Text → Bot → Bot
bang_command cfg w nick reply (verb, rest) b =
    let cmd = lower verb in
    let arg = strip rest in
    if member cmd per_project_cmds
    then with_projects cfg w cmd reply arg (select_projects arg) b
    else plain_command cfg w nick reply cmd arg b

-- `command(nick, reply, text)`
unfoldable pub command : Config → World → Text → Text → Text → Bot → Bot
command cfg w nick reply [] b = b
command cfg w nick reply (c ∷ s) b =
    if c == b'!' then bang_command cfg w nick reply (partition (text " ") s) b else b
