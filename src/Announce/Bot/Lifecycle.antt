-- ===== src/Announce/Bot/Lifecycle.antt =====
-- `connect` of tools/announce_bot.py, and the delays of `run` between its attempts.
pub mod Backoff
use orochi.Prelude.{ℕ, ◌*◌, Bool, true, false, List, [], ◌∷◌, ◌++◌, if◌then◌else◌, min}
use orochi.Text.{Text, text, cat, is_empty}
use orochi.Announce.Config.{Config}
use orochi.Announce.World.{World}
use orochi.Announce.Bot.{Bot, send_raw}

-- What `connect` sets before it opens the socket.
unfoldable pub reset : Config → World → Bot → Bot
reset cfg w b = record b {
  nick = cfg.nick;
  caps = [];
  cap_ls = [];
  cap_ended = false;
  connect_ts = w.now;
  sasl_active = false;
  registered = false;
  outq = [];
  last_topic = [];
}

-- The lines that open the registration.
unfoldable pub register : Config → World → Bot → Bot
register cfg w b =
    let b₁ = send_raw w (text "CAP LS 302") b in
    let b₂ = if is_empty cfg.password then b₁ else send_raw w (text "PASS " ++ cfg.password) b₁ in
    let b₃ = send_raw w (text "NICK " ++ b₂.nick) b₂ in
    send_raw w (cat (text "USER " ∷ cfg.nick ∷ text " 0 * :Onyx+Onyx Server build announcer" ∷ []))
      b₃

-- `connect`: the new state, and whether it returned; otherwise it raised. A new connection has had
-- no lines yet.
unfoldable pub connect : Config → World → Bot → Bot × Bool
connect cfg w b =
    let opened = record (reset cfg w b) { sock = true; wire = [] } in
    if w.connects then (register cfg w opened, true) else (reset cfg w b, false)

-- `RECONNECT_MIN`, `RECONNECT_MAX`, in seconds.
abbrev pub reconnect_min : ℕ
reconnect_min = 6

abbrev pub reconnect_max : ℕ
reconnect_max = 300

-- What `run` sleeps after each attempt: for every attempt, whether `connect` returned. A connection
-- ends by an exception of `loop`, which never returns.
unfoldable pub delays : ℕ → List Bool → List ℕ
delays backoff [] = []
delays backoff (connected ∷ rest) =
    let now = if connected then reconnect_min else backoff in
    now ∷ delays (min (now * 2) reconnect_max) rest
