-- ===== src/Announce/Bot.antt =====
-- The class `Bot` of tools/announce_bot.py: its state, and the methods that put lines on the wire
-- or in the paced queue. `wire` is what the current connection has been sent, oldest line first.
-- Logging is left out.
pub mod Caps
pub mod Ctcp
pub mod ProjectCommands
pub mod Commands
pub mod Handle
pub mod Effects
pub mod HardCap
pub mod Lifecycle
pub mod Commits
pub mod Loop
use orochi.Prelude.{
  ℕ, zero, suc, ◌+◌, ◌-◌, Bool, true, false, not, List, [], ◌∷◌, ◌++◌, ltb, leb, if◌then◌else◌,
  length, take, max,
}
use orochi.Text.{Text, text, cat, is_empty, same, member, lower, upper, strip, rstrip}
use orochi.Text.Number.{Number}
use orochi.Text.Split.{words, clean_lines}
use orochi.Announce.Chunks.{byte_len, max_message_text_bytes}
use orochi.Announce.Config.{Config, Project, protected_topic_channels}
use orochi.Announce.Config.Projects.{projects}
use orochi.Announce.World.{World, git}
use orochi.Announce.Inventory.{Cache, inventory_label}

-- `topic_protected`
unfoldable pub topic_protected : Text → Bool
unfolding lower member
topic_protected channel = member (lower channel) protected_topic_channels

-- On the words of the line.
unfoldable pub protected_words : List Text → Bool
unfolding topic_protected upper member
protected_words [] = false
protected_words (verb ∷ []) = false
protected_words (verb ∷ channel ∷ r) =
    if not (member (upper verb) (text "TOPIC" ∷ text "FORCETOPIC" ∷ []))
    then false
    else topic_protected channel

-- `topic_change_protected`
unfoldable pub topic_change_protected : Text → Bool
unfolding protected_words words strip
topic_change_protected line = protected_words (words (strip line))

-- The attributes of `Bot`, and the global `INVENTORY`. `sock` says whether there is a socket.
pub record Bot : Type 0 where
  pub sock : Bool
  pub nick : Text
  pub last_commit : List (Text × Text)
  pub last_tests : List (Text × Number)
  pub last_beat : ℕ
  pub last_poll : ℕ
  pub last_topic : Text
  pub outq : List Text
  pub last_send : ℕ
  pub caps : List Text
  pub cap_ls : List Text
  pub cap_ended : Bool
  pub connect_ts : ℕ
  pub sasl_active : Bool
  pub registered : Bool
  pub last_rx : ℕ
  pub last_keepalive : ℕ
  pub intro_done : Bool
  pub inventory : Cache
  pub wire : List Text

-- `sendall` of a line.
unfoldable pub transmit : World → Text → Bot → Bot
transmit w line b = if w.link_up then record b { wire = b.wire ++ line ∷ [] } else b

-- `send_raw(line)`
unfoldable pub send_raw : World → Text → Bot → Bot
send_raw w line b =
    if not b.sock then b else if topic_change_protected line then b else transmit w line b

-- `send_raw(line, trusted=True)`
unfoldable pub send_trusted : World → Text → Bot → Bot
send_trusted w line b = if not b.sock then b else transmit w line b

unfoldable pub enqueue : Text → Bot → Bot
enqueue line b = record b { outq = b.outq ++ line ∷ [] }

abbrev pub privmsg_line : Text → Text → Text
privmsg_line target body = text "PRIVMSG " ++ (target ++ (text " :" ++ body))

abbrev pub notice_line : Text → Text → Text
notice_line target body = text "NOTICE " ++ (target ++ (text " :" ++ body))

abbrev pub join_line : Text → Text
join_line channel = text "JOIN " ++ channel

unfoldable pub msg : Text → Text → Bot → Bot
msg target body b = if is_empty (strip body) then b else enqueue (privmsg_line target body) b

unfoldable pub notice : Text → Text → Bot → Bot
notice target body b = if is_empty (strip body) then b else enqueue (notice_line target body) b

-- One round of the hard cap: eight characters off the end, and an ellipsis.
unfoldable pub cap_once : Text → Text
cap_once body = rstrip (take (max 1 (length body - 8)) body) ++ 0x2026 ∷ []

-- The `while` loop of the hard cap, with fuel.
unfoldable pub cap_loop : ℕ → Text → Text
unfolding cap_once byte_len
cap_loop zero body = body
cap_loop (suc fuel) body =
    let shorter = cap_loop fuel (cap_once body) in
    if ltb max_message_text_bytes (byte_len body) then shorter else body

-- Every round takes a character at least, so the length is fuel enough.
unfoldable pub cap_text : Text → Text
unfolding cap_loop
cap_text body = cap_loop (length body) body

unfoldable pub channel_say : Config → World → Bool → Text → Bot → Bot
channel_say cfg w immediate body b =
    let body' = strip body in
    let line = privmsg_line cfg.channel (cap_text body') in
    let sent = send_raw w line b in
    if is_empty body'
    then b
    else if immediate
    then record sent { last_send = w.now }
    else enqueue line b

unfoldable pub channel_notice : Config → Text → Bot → Bot
channel_notice cfg body b =
    let body' = strip body in
    if is_empty body' then b else enqueue (notice_line cfg.channel body') b

unfoldable pub say_all : Config → World → List Text → Bot → Bot
say_all cfg w [] b = b
say_all cfg w (l ∷ ls) b = say_all cfg w ls (channel_say cfg w false l b)

unfoldable pub msg_all : Text → List Text → Bot → Bot
msg_all dest [] b = b
msg_all dest (l ∷ ls) b = msg_all dest ls (msg dest l b)

-- `announce` of lines that are cleaned: the first one to the channel at once.
unfoldable pub announce_cleaned : Config → World → Text → List Text → Bot → Bot
announce_cleaned cfg w dest [] b = b
announce_cleaned cfg w dest (l ∷ ls) b =
    if same dest cfg.channel
    then say_all cfg w ls (channel_say cfg w true l b)
    else msg_all dest (l ∷ ls) b

-- `announce(lines, dest)`, where `dest` is `target or CHANNEL`.
unfoldable pub announce : Config → World → Text → List Text → Bot → Bot
announce cfg w dest lines b = announce_cleaned cfg w dest (clean_lines lines) b

-- `SEND_INTERVAL`
abbrev pub send_interval : ℕ
send_interval = 400

unfoldable pub pump : World → List Text → Bot → Bot
pump w [] b = b
pump w (l ∷ ls) b =
    let sent = send_raw w l (record b { outq = ls }) in
    if leb (b.last_send + send_interval) w.now then record sent { last_send = w.now } else b

-- `pump_out`
unfoldable pub pump_out : World → Bot → Bot
unfolding pump
pump_out w b = pump w b.outq b

abbrev short_head : List Text
short_head = text "rev-parse" ∷ text "--short" ∷ text "HEAD" ∷ []

unfoldable pub topic_segments : World → Cache → List Project → Text
topic_segments w c [] = text "!help"
topic_segments w c (p ∷ ps) = cat (
    p.topic_label
    ∷ text " · "
    ∷ git w p short_head
    ∷ text " · "
    ∷ inventory_label w c p
    ∷ text "  ❘  "
    ∷ topic_segments w c ps
    ∷ [])

-- The topic that `set_topic` renders.
unfoldable pub rendered_topic : World → Cache → Text
rendered_topic w c = topic_segments w c projects

abbrev pub topic_line : Config → Text → Text
topic_line cfg topic = text "TOPIC " ++ (cfg.channel ++ (text " :" ++ topic))

unfoldable pub set_topic : Config → World → Bot → Bot
set_topic cfg w b =
    let topic = rendered_topic w b.inventory in
    let sent = send_trusted w (topic_line cfg topic) b in
    if same topic b.last_topic then b else record sent { last_topic = topic }
