-- ===== src/Smoke/Upgrade/Before.antt =====
-- What tools/upgrade_smoke.py does up to the answer to UPGRADE.
use orochi.Prelude.{min, ◌*◌, Option, none, some, ℕ, zero, suc, ◌++◌, take, if◌then◌else◌}
use orochi.Text.{Text, text, contains, show}
use orochi.Text.Encode.{base64}
use orochi.Smoke.{Bytes}
use orochi.Smoke.Session.{
  limited, conn_a, conn_a2, conn_b, conn_d, conn_t, conn_w, filler, wrote, started, slept, closed,
  died_in_boot, not_elevated, not_registered, raised, Script, World, ◌>>=◌, ◌>>◌, give, act, poll,
  pid, frame, connect, send, recv, ws_recv, remove_all, check,
}
use orochi.Smoke.Upgrade.{
  conf, databases, paths, account, password, bounce_account, bounce_password, config_text, greet,
  register, login, session_token,
}

-- The soft limit that `raise_stack_limit` sets; `none` is `RLIM_INFINITY`.
abbrev pub stack_limit : Option ℕ → ℕ
stack_limit none = 512 * 1024 * 1024
stack_limit (some hard) = min (512 * 1024 * 1024) hard

-- The files of an earlier run go, the daemon boots; its process number is the result.
unfoldable pub boot : World → Script ℕ
boot w = do
  remove_all w databases
  act (wrote conf config_text)
  act (limited (stack_limit w.stack_hard_limit) w.stack_hard_limit)
  act started
  act (slept 2500)
  alive ← poll w
  check w paths alive died_in_boot
  pid w

-- The operator's account, whose connection stays open, and the bouncer's.
unfoldable pub accounts : World → Script (Unit {0})
accounts w = do
  connect w conn_a
  greet w conn_a (text "NICK regger\r\nUSER reg 0 * :reg\r\n")
  register w conn_a account password
  connect w conn_a2
  greet w conn_a2 (text "NICK survivor\r\nUSER reg2 0 * :reg2\r\n")
  register w conn_a2 bounce_account bounce_password
  act (closed conn_a2)

unfoldable pub operator : World → Script (Unit {0})
operator w = do
  login w conn_b account password
  send w conn_b (text "CAP END\r\nNICK admin\r\nUSER admin 0 * :admin\r\n")
  welcome ← recv w conn_b (text " 381 ") 4000
  check w paths (contains welcome (text " 381 ")) not_elevated

-- The client that is to survive, with its token.
unfoldable pub survivor : World → Script Text
survivor w = do
  login w conn_d bounce_account bounce_password
  greet w conn_d (text "CAP END\r\nNICK survivor\r\nUSER survivor 0 * :survivor\r\n")
  send w conn_d (text "JOIN #durable\r\n")
  joined ← recv w conn_d (text " 366 ") 4000
  send w conn_d (text "MODE survivor +i\r\nMONITOR + watchtarget\r\nSILENCE +bad!*@*\r\n")
  armed ← recv w conn_d (text " 731 ") 4000
  session_token w

unfoldable pub tls_client : World → Script (Unit {0})
tls_client w = do
  connect w conn_t
  greet w conn_t (text "NICK tlssurv\r\nUSER tlssurv 0 * :tlssurv\r\n")

-- `ws_connect`; the last line is its `RuntimeError`.
unfoldable pub ws_connect : World → Script (Unit {0})
unfolding base64
ws_connect w = do
  connect w conn_w
  λ tr.
      send w conn_w
        (text "GET / HTTP/1.1\r\nHost: 127.0.0.1\r\nUpgrade: websocket\r\n"
          ++ text "Connection: Upgrade\r\nSec-WebSocket-Key: "
          ++ base64 (w.random 16 tr)
          ++ text "\r\nSec-WebSocket-Version: 13\r\n\r\n")
        tr
  answer ← recv w conn_w (text "\r\n\r\n") 4000
  if contains answer (text "101") then give tt else (λ tr. (raised, tr))

-- The WebSocket client, left in the middle of a frame, which is the result.
unfoldable pub ws_client : World → Script Bytes
ws_client w = do
  ws_connect w
  nick ← frame w (text "NICK wssurv")
  send w conn_w nick
  user ← frame w (text "USER wssurv 0 * :wssurv")
  send w conn_w user
  welcome ← ws_recv w conn_w (text " 001 ") 4000
  check w paths (contains welcome (text " 001 ")) not_registered
  midframe ← frame w (text "PING :midframe")
  send w conn_w (take 7 midframe)
  act (slept 500)
  give midframe

abbrev pub filler_name : ℕ → Text
filler_name i = text "filler" ++ show i

-- The filler clients from `i` on, `n` of them.
unfoldable pub fillers : World → ℕ → ℕ → Script (Unit {0})
fillers w i zero = give tt
fillers w i (suc n) = do
  connect w (filler i)
  greet w (filler i) (
      text "NICK " ++ filler_name i ++ text "\r\nUSER " ++ filler_name i ++ text " 0 * :filler\r\n")
  fillers w (suc i) n

-- UPGRADE, and the time that the successor takes.
unfoldable pub upgrade : World → Script (Unit {0})
upgrade w = do
  send w conn_b (text "UPGRADE\r\n")
  note ← recv w conn_b (text "UPGRADE") 3000
  act (closed conn_b)
  act (slept 2500)
