-- ===== src/Announce/Bot/Handle.antt =====
-- `handle` of tools/announce_bot.py: one line from the server, read and answered.
pub mod Pong
use orochi.Prelude.{
  ℕ, zero, Bool, true, false, not, ◌&&◌, ◌||◌, Option, none, some, List, [], ◌∷◌, ◌++◌, ◌==◌,
  if◌then◌else◌, ◌>>=◌,
}
use orochi.Text.{
  Text, text, cat, is_empty, same, member, strip, starts_with, drop_prefix, word_of, upto_newline,
}
use orochi.Text.Split.{words, cut}
use orochi.Text.Encode.{utf8, base64}
use orochi.Announce.Config.{Config, Project, bold, rst, grey, silver}
use orochi.Announce.Config.Projects.{projects}
use orochi.Announce.World.{World, git, or_else}
use orochi.Announce.Bot.{Bot, send_raw, enqueue, join_line, channel_say, set_topic}
use orochi.Announce.Bot.Caps.{cap_end, handle_cap}
use orochi.Announce.Bot.Ctcp.{ctcp}
use orochi.Announce.Bot.Commands.{command}

abbrev behind : Option (Text × Text) → Text
behind none = []
behind (some (a, b)) = b

-- The line without a leading block of message tags.
unfoldable pub untagged : Text → Text
unfolding cut
untagged [] = []
untagged (c ∷ s) = if c == b'@' then behind (cut (text " ") (c ∷ s)) else c ∷ s

abbrev pub drop_colon : Text → Text
drop_colon [] = []
drop_colon (c ∷ s) = if c == b':' then s else c ∷ s

-- What stands behind the first `PING`.
unfoldable pub ping_token : Text → Text
unfolding cut strip
ping_token work = drop_colon (strip (behind (cut (text "PING") work)))

-- `re.match(r":\S+ KICK (\S+) " + re.escape(nick), work)`, its group.
unfoldable pub parse_kick : Text → Text → Option Text
unfolding drop_prefix word_of
parse_kick nick work = do
  s ← drop_prefix (text ":") work
  (source, r) ← word_of s
  t ← drop_prefix (text " KICK ") r
  (channel, u) ← word_of t
  v ← drop_prefix (b' ' ∷ nick) u
  some channel

-- `(\S+?)!(\S+)` on a whole word: the first `!` that has text on both sides of it.
unfoldable pub split_source : Text → Option (Text × Text)
unfolding cut
split_source [] = none
split_source (c ∷ s) = do (a, b) ← cut (text "!") s; if is_empty b then none else some (c ∷ a, b)

pub record Message : Type 0 where
  pub nick : Text
  pub target : Text
  pub body : Text

-- `re.match(r":(\S+?)!(\S+) PRIVMSG (\S+) :(.*)", work)`, three of its groups.
unfoldable pub parse_privmsg : Text → Option Message
unfolding drop_prefix word_of split_source upto_newline
parse_privmsg work = do
  s ← drop_prefix (text ":") work
  (source, r) ← word_of s
  t ← drop_prefix (text " PRIVMSG ") r
  (target, u) ← word_of t
  body ← drop_prefix (text " :") u
  (nick, host) ← split_source source
  some (record { nick = nick; target = target; body = upto_newline body })

abbrev ends_in_ctcp : Text → Bool
ends_in_ctcp [] = false
ends_in_ctcp (c ∷ []) = c == 1
ends_in_ctcp (c ∷ d ∷ s) = ends_in_ctcp (d ∷ s)

lstrip_ctcp : Text → Text
lstrip_ctcp [] = []
lstrip_ctcp (c ∷ s) = if c == 1 then lstrip_ctcp s else c ∷ s

abbrev keep_unless_ctcp : ℕ → Text → Text
keep_unless_ctcp c [] = if c == 1 then [] else c ∷ []
keep_unless_ctcp c (d ∷ s) = c ∷ d ∷ s

rstrip_ctcp : Text → Text
rstrip_ctcp [] = []
rstrip_ctcp (c ∷ s) = keep_unless_ctcp c (rstrip_ctcp s)

-- `text.strip("\x01")`
unfoldable pub strip_ctcp : Text → Text
unfolding lstrip_ctcp rstrip_ctcp
strip_ctcp s = rstrip_ctcp (lstrip_ctcp s)

unfoldable pub on_message : Config → World → Message → Bot → Bot
on_message cfg w m b =
    let reply = if same m.target cfg.channel then cfg.channel else m.nick in
    if starts_with m.body (1 ∷ []) && ends_in_ctcp m.body
    then ctcp w m.nick (strip_ctcp m.body) b
    else command cfg w m.nick reply (strip m.body) b

-- The greeting of one project.
unfoldable pub intro_text : World → Project → Text
intro_text w p =
    let head =
      or_else (git w p (text "rev-parse" ∷ text "--short" ∷ text "HEAD" ∷ [])) (text "?") in
    cat (
      p.accent
      ∷ bold
      ∷ text "["
      ∷ p.key
      ∷ text "]"
      ∷ rst
      ∷ text " "
      ∷ p.emoji
      ∷ text " "
      ∷ bold
      ∷ p.name
      ∷ rst
      ∷ text " "
      ∷ grey
      ∷ text "watching"
      ∷ rst
      ∷ text " "
      ∷ silver
      ∷ p.repo
      ∷ rst
      ∷ text " "
      ∷ grey
      ∷ text "HEAD"
      ∷ rst
      ∷ text " "
      ∷ p.accent
      ∷ head
      ∷ rst
      ∷ text " "
      ∷ grey
      ∷ text "· !help"
      ∷ rst
      ∷ [])

unfoldable pub introduce : Config → World → List Project → Bot → Bot
introduce cfg w [] b = b
introduce cfg w (p ∷ ps) b = introduce cfg w ps (channel_say cfg w false (intro_text w p) b)

-- The answer to the welcome.
unfoldable pub welcome : Config → World → Bot → Bot
welcome cfg w b =
    let joining = send_raw w (join_line cfg.channel) (record b { registered = true }) in
    set_topic cfg w (
      if joining.intro_done
      then joining
      else introduce cfg w projects (record joining { intro_done = true }))

abbrev pub sasl_payload : Config → Text
sasl_payload cfg =
    base64 (utf8 (cfg.sasl_user ++ (zero ∷ (cfg.sasl_user ++ (zero ∷ cfg.sasl_pass)))))

unfoldable pub authenticate : Config → World → Text → Bot → Bot
authenticate cfg w challenge b =
    if same challenge (text "+") then send_raw w (text "AUTHENTICATE " ++ sasl_payload cfg) b else b

-- A KICK of the bot, a message, or nothing.
unfoldable pub on_parsed : Config → World → Option Text → Option Message → Bot → Bot
on_parsed cfg w (some channel) m b = enqueue (join_line channel) b
on_parsed cfg w none (some m) b = on_message cfg w m b
on_parsed cfg w none none b = b

-- What is no numeric of interest.
unfoldable pub on_traffic : Config → World → Text → Bot → Bot
unfolding on_parsed
on_traffic cfg w work b = on_parsed cfg w (parse_kick b.nick work) (parse_privmsg work) b

unfoldable pub recover_nick : World → Bot → Bot
recover_nick w b =
    let b' = record b { nick = b.nick ++ b'_' ∷ [] } in send_raw w (text "NICK " ++ b'.nick) b'

-- The dispatch on the second word.
unfoldable pub on_numeric : Config → World → Text → Bool → Text → Bot → Bot × Bool
on_numeric cfg w work joined code b =
    if same code (text "903")
    then (cap_end w b, joined)
    else if member code (text "902" ∷ text "904" ∷ text "905" ∷ text "906" ∷ text "907" ∷ [])
    then (cap_end w b, joined)
    else if member code (text "433" ∷ text "436" ∷ [])
    then (recover_nick w b, joined)
    else if member code (text "001" ∷ text "376" ∷ text "422" ∷ []) && not joined
    then (welcome cfg w b, true)
    else (on_traffic cfg w work b, joined)

abbrev rest_is_empty : List Text → Bool
rest_is_empty [] = true
rest_is_empty (_ ∷ _) = false

-- The words of the line decide, in the order of the source's tests.
unfoldable pub on_words : Config → World → Text → Bool → List Text → Bot → Bot × Bool
on_words cfg w work joined [] b = (on_traffic cfg w work b, joined)
on_words cfg w work joined (x ∷ []) b =
    if same x (text "PING")
    then (send_raw w (text "PONG :" ++ ping_token work) b, joined)
    else (on_traffic cfg w work b, joined)
on_words cfg w work joined (x ∷ y ∷ rest) b =
    if same x (text "PING") || same y (text "PING")
    then (send_raw w (text "PONG :" ++ ping_token work) b, joined)
    else if not (rest_is_empty rest) && same y (text "CAP")
    then (handle_cap cfg w work (x ∷ y ∷ rest) b, joined)
    else if same x (text "AUTHENTICATE")
    then (authenticate cfg w y b, joined)
    else on_numeric cfg w work joined y b

-- `handle(line, joined)`: the new state and what is returned.
unfoldable pub handle : Config → World → Text → Bool → Bot → Bot × Bool
handle cfg w line joined b = let work = untagged line in on_words cfg w work joined (words work) b
