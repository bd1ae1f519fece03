-- ===== src/Announce/Bot/Loop.antt =====
-- The socket loop of tools/announce_bot.py, round by round: `select` and `recv` are the arguments of
-- a round, and the decoding of bytes as UTF-8 is a parameter. One round sees one time. What is
-- raised ends the connection and keeps the state of the bot.
pub mod Safe
pub mod Lines
pub mod Stream
pub mod Tests
use orochi.Prelude.{
  ℕ, zero, suc, ◌+◌, ◌-◌, ◌*◌, ◌/◌, Bool, true, false, not, ◌&&◌, ◌||◌, Option, none, some, List,
  [], ◌∷◌, ◌++◌, ltb, leb, if◌then◌else◌, length,
}
use orochi.Text.{Text, text, show}
use orochi.Text.Split.{cut}
use orochi.Announce.Config.{Config, Project}
use orochi.Announce.Config.Projects.{projects}
use orochi.Announce.World.{World}
use orochi.Announce.Bot.{Bot, send_raw, announce, set_topic, pump_out}
use orochi.Announce.Bot.Caps.{cap_end}
use orochi.Announce.Bot.ProjectCommands.{stats_lines}
use orochi.Announce.Bot.Handle.{handle}
use orochi.Announce.Bot.Lifecycle.{connect}
use orochi.Announce.Bot.Commits.Poll.{poll_project}

abbrev pub Bytes : Type 0
Bytes = List ℕ

-- The local variables of `loop`, and the bot.
pub record LoopState : Type 0 where
  pub buf : Bytes
  pub joined : Bool
  pub bot : Bot

pub data Outcome : Type 0 where
  next : LoopState → Outcome
  raised : Text → Bot → Outcome

abbrev pub crlf : Bytes
crlf = 13 ∷ 10 ∷ []

module _ (decode : Bytes → Text) (cfg : Config) (w : World) where
  -- One line from the buffer.
  unfoldable pub handle_line : Bytes → Bytes → LoopState → LoopState
  unfolding handle
  handle_line raw rest st =
      let (b, j) = handle cfg w (decode raw) st.joined st.bot in
      record { buf = rest; joined = st.joined || j; bot = b }

  -- The inner loop, with fuel.
  unfoldable pub handle_lines : ℕ → LoopState → LoopState
  unfolding handle_line cut
  handle_lines zero st = st
  handle_lines (suc fuel) st = elim (cut crlf st.buf) [
    | none ↦ st
    | some (raw, rest) ↦ handle_lines fuel (handle_line raw rest st)
  ]

  -- Every round takes the two bytes of a line end, so the length is fuel enough.
  unfoldable pub handle_buffer : LoopState → LoopState
  unfolding handle_lines
  handle_buffer st = handle_lines (length st.buf) st

  unfoldable pub receive_data : Bytes → LoopState → LoopState
  unfolding handle_buffer
  receive_data d st =
      handle_buffer (record st { buf = st.buf ++ d; bot = record st.bot { last_rx = w.now } })

-- `now - t > ms`
abbrev pub past : World → ℕ → ℕ → Bool
past w t ms = ltb (t + ms) w.now

-- The probe of an idle connection.
unfoldable pub keepalive : World → Bot → Bot
keepalive w b =
    let b' = record b { last_keepalive = w.now } in
    let probed = send_raw w (text "PING :ka" ++ show (w.now / 1000)) b' in
    if past w b.last_rx 90000 && past w b.last_keepalive 60000 then probed else b

-- The end of a negotiation that has stalled.
unfoldable pub cap_timeout : World → Bot → Bot
cap_timeout w b =
    if not b.registered && not b.cap_ended && past w b.connect_ts 5000 then cap_end w b else b

unfoldable pub announce_stats : Config → World → List Project → Bot → Bot
announce_stats cfg w [] b = b
announce_stats cfg w (p ∷ ps) b =
    announce_stats cfg w ps (announce cfg w cfg.channel (stats_lines w b.inventory p) b)

-- `HEARTBEAT_SECS`
abbrev heartbeat_ms : ℕ
heartbeat_ms = 21600000

unfoldable pub heartbeat : Config → World → Bool → Bot → Bot
heartbeat cfg w joined b =
    let told = set_topic cfg w (announce_stats cfg w projects (record b { last_beat = w.now })) in
    if joined && past w b.last_beat heartbeat_ms then told else b

unfoldable pub poll_projects : Config → World → List Project → Bot → Bot
poll_projects cfg w [] b = b
poll_projects cfg w (p ∷ ps) b = poll_projects cfg w ps (poll_project cfg w p b)

-- `POLL_SECS`
abbrev poll_ms : ℕ
poll_ms = 15000

unfoldable pub poll_heads : Config → World → Bool → Bot → Bot
poll_heads cfg w joined b =
    let told = set_topic cfg w (poll_projects cfg w projects (record b { last_poll = w.now })) in
    if joined && leb (b.last_poll + poll_ms) w.now then told else b

-- What a round does after it has read.
unfoldable pub timers : Config → World → LoopState → Outcome
timers cfg w st =
    let pumped = pump_out w st.bot in
    let b = cap_timeout w (keepalive w pumped) in
    if past w pumped.last_rx 240000
    then raised (text "read timeout") pumped
    else next (record st { bot = poll_heads cfg w st.joined (heartbeat cfg w st.joined b) })

-- A round of `loop`; the data is `none` if `select` reports none.
unfoldable pub round : (Bytes → Text) → Config → World → Option Bytes → LoopState → Outcome
round decode cfg w none st = timers cfg w st
round decode cfg w (some []) st = raised (text "eof") st.bot
round decode cfg w (some (c ∷ d)) st = timers cfg w (receive_data decode cfg w (c ∷ d) st)

-- The state of the bot after the rounds of a connection.
unfoldable pub rounds : (Bytes → Text) → Config → List (World × Option Bytes) → LoopState → Bot
unfolding round
rounds decode cfg [] st = st.bot
rounds decode cfg ((w, input) ∷ rs) st = elim (round decode cfg w input st) [
  | next st' ↦ rounds decode cfg rs st'
  | raised e b ↦ b
]

abbrev pub loop_start : World → Bot → LoopState
loop_start w b = record {
  buf = [];
  joined = false;
  bot = record b { last_rx = w.now; last_keepalive = w.now };
}

-- `connect` and the rounds of `loop`, as an attempt of `run` makes them.
unfoldable pub attempt : (Bytes → Text) → Config → World → List (World × Option Bytes) → Bot → Bot
unfolding connect rounds
attempt decode cfg w rs b =
    let (b', connected) = connect cfg w b in
    if connected then rounds decode cfg rs (loop_start w b') else b'
