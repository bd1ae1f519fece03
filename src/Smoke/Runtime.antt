-- ===== src/Smoke/Runtime.antt =====
-- tools/runtime_smoke.py: the daemon boots, registers a client, answers a PING and is stopped.
pub mod Ends
pub mod Success
pub mod Tests
use orochi.Prelude.{Bool, ℕ, ◌-◌, ◌&&◌, List, [], ◌∷◌, ◌++◌, min, max, if◌then◌else◌}
use orochi.Text.{Text, text, contains, show}
use orochi.Smoke.{Bytes}
use orochi.Smoke.Session.{
  conn_c, wrote, started, slept, closed, Trace, no_binary, died_in_boot, not_registered, no_pong,
  died_in_service, Script, World, ◌>>=◌, ◌>>◌, give, act, catch, poll, connect, send, recv, cleanup,
  fail_early, check,
}

abbrev pub conf : Text
conf = text "/tmp/mz_runtime.toml"

abbrev pub paths : List Text
paths = conf ∷ text "/tmp/mz_runtime.log" ∷ []

abbrev pub token : Text
token = text "smoke-runtime"

-- The configuration file.
abbrev config_text : Text
config_text =
    text "[node]\nid = 1\n"
    ++ (text "[listen]\nhost = \"127.0.0.1\"\nirc = " ++ (show 16721 ++ text "\n"))

-- `remaining()`
unfoldable pub remaining : World → Trace → ℕ
remaining w tr = max 250 (30000 - w.elapsed tr)

-- `recv_until`, which cuts its timeout to what remains.
unfoldable pub wait_for : World → Bytes → ℕ → Script Text
unfolding remaining recv
wait_for w needle timeout tr = recv w conn_c needle (min timeout (remaining w tr)) tr

-- `NICK` and `USER`, then the welcome.
unfoldable pub register : World → Script (Unit {0})
register w = do
  connect w conn_c
  send w conn_c (text "NICK smoke\r\nUSER smoke 0 * :smoke\r\n")
  welcome ← wait_for w (text " 001 ") 4000
  check w paths (contains welcome (text " 001 ")) not_registered

unfoldable pub ping : World → Script (Unit {0})
ping w = do
  send w conn_c (text "PING :" ++ (token ++ text "\r\n"))
  pong ← wait_for w (text "PONG") 4000
  check w paths (contains pong (text "PONG") && contains pong token) no_pong

-- The `try` statement around `QUIT`, whose `finally` closes the socket.
unfoldable pub quit : World → Script (Unit {0})
quit w = do
  catch (do send w conn_c (text "QUIT :bye\r\n"); answer ← wait_for w (text "ERROR") 2000; give tt)
      (give tt)
  act (closed conn_c)

-- The start, up to `PASS: daemon booted`.
unfoldable pub boot : World → Script (Unit {0})
boot w = do
  act (wrote conf config_text)
  act started
  act (slept 2500)
  booted ← poll w
  check w paths booted died_in_boot

-- All from `QUIT` on.
unfoldable pub finish : World → Script ℕ
finish w = do quit w; alive ← poll w; check w paths alive died_in_service; cleanup w paths; give 0

-- All behind the test for the binary.
unfoldable pub session : World → Script ℕ
session w = do boot w; register w; ping w; finish w

-- `main`, by whether there is a binary.
unfoldable pub main_if : World → Bool → Script ℕ
unfolding session fail_early
main_if w exists = if exists then session w else fail_early w paths no_binary

unfoldable pub main : World → Script ℕ
unfolding main_if
main w = main_if w w.binary_exists
