-- ===== src/Smoke/Upgrade/After.antt =====
-- What tools/upgrade_smoke.py asks of the successor, and its `main`.
use orochi.Prelude.{
  ℕ, zero, suc, Bool, true, false, not, ◌&&◌, ◌||◌, ltb, ◌==◌, Option, none, some, List, [], ◌∷◌,
  ◌++◌, drop, if◌then◌else◌,
}
use orochi.Text.{Text, text, same, contains}
use orochi.Text.Split.{cut}
use orochi.Smoke.{Bytes}
use orochi.Smoke.Session.{
  Conn, conn_a, conn_c, conn_c2, conn_d, conn_e, conn_t, conn_w, filler, slept, closed, no_binary,
  died_in_upgrade, pid_changed, no_listener, no_seals, no_other_shard, shard_not_adopted,
  nothing_attached, no_breakdown, too_few_attached, connection_broke, no_pong, token_changed,
  umode_lost, monitor_lost, silence_lost, nick_lost, membership_lost, Script, World, ◌>>=◌, ◌>>◌,
  give, act, catch, poll, pid, log_text, connect, send, recv, ws_recv, check, fail, fail_early,
  cleanup,
}
use orochi.Smoke.Upgrade.{paths, num_shards, filler_clients, greet, need, session_token}
use orochi.Smoke.Upgrade.Pattern.{Piece, lit, num, find_all, first_match}
use orochi.Smoke.Upgrade.Before.{
  boot, accounts, operator, survivor, tls_client, ws_client, filler_name, fillers, upgrade,
}

-- `r"UPGRADE — shard (\d+): (\d+) client\(s\) sealed"`
abbrev pub seal_line : List Piece
seal_line =
    lit (text "UPGRADE — shard ")
    ∷ num
    ∷ lit (text ": ")
    ∷ num
    ∷ lit (text " client(s) sealed")
    ∷ []

-- `r"adopting inherited listener fd \d+ \(shard (\d+)\)"`, with the first number, too.
abbrev pub adopt_line : List Piece
adopt_line =
    lit (text "adopting inherited listener fd ")
    ∷ num
    ∷ lit (text " (shard ")
    ∷ num
    ∷ lit (text ")")
    ∷ []

-- `r"re-attached (\d+) client connection\(s\) \((\d+) TLS, (\d+) wss\)"`
abbrev pub attach_line : List Piece
attach_line =
    lit (text "re-attached ")
    ∷ num
    ∷ lit (text " client connection(s) (")
    ∷ num
    ∷ lit (text " TLS, ")
    ∷ num
    ∷ lit (text " wss)")
    ∷ []

-- The pairs of a dictionary: a key's last value counts.
unfoldable pub sets_shard : ℕ → List (List ℕ) → Bool
sets_shard k [] = false
sets_shard k ((s ∷ n ∷ []) ∷ ms) = s == k || sets_shard k ms
sets_shard k (m ∷ ms) = sets_shard k ms

-- `any(n > 0 for s, n in shard_seals.items() if s > 0)`
unfoldable pub sealed_elsewhere : List (List ℕ) → Bool
unfolding sets_shard
sealed_elsewhere [] = false
sealed_elsewhere ((s ∷ n ∷ []) ∷ ms) =
    ltb 0 n && ltb 0 s && not (sets_shard s ms) || sealed_elsewhere ms
sealed_elsewhere (m ∷ ms) = sealed_elsewhere ms

abbrev some_match : List (List ℕ) → Bool
some_match [] = false
some_match (m ∷ ms) = true

unfoldable pub adopted : ℕ → List (List ℕ) → Bool
adopted shard [] = false
adopted shard ((fd ∷ s ∷ []) ∷ ms) = s == shard || adopted shard ms
adopted shard (m ∷ ms) = adopted shard ms

-- `for shard in range(NUM_SHARDS)`, from a shard on, for so many.
unfoldable pub check_shards : World → Text → ℕ → ℕ → Script (Unit {0})
unfolding adopted find_all
check_shards w log shard zero = give tt
check_shards w log shard (suc n) = do
  check w paths (adopted shard (find_all adopt_line log)) shard_not_adopted
  check_shards w log (suc shard) n

abbrev pub enough : List ℕ → Bool
enough (clients ∷ tls ∷ wss ∷ []) = not (ltb clients 3 || ltb tls 2 || ltb wss 1)
enough _ = false

-- The process is the same, and its log tells of the handover.
unfoldable pub handover : World → ℕ → Script (Unit {0})
unfolding find_all sealed_elsewhere
handover w pid_before = do
  alive ← poll w
  check w paths alive died_in_upgrade
  now ← pid w
  check w paths (now == pid_before) pid_changed
  log ← log_text w
  check w paths (contains log (text "adopting inherited listener fd")) no_listener
  check w paths (some_match (find_all seal_line log)) no_seals
  check w paths (sealed_elsewhere (find_all seal_line log)) no_other_shard
  check_shards w log 0 num_shards
  check w paths
      (contains log (text "re-attached") && not (contains log (text "re-attached 0 client")))
      nothing_attached
  counts ← need w (first_match (find_all attach_line log)) no_breakdown
  check w paths (enough counts) too_few_attached

-- A PING on a connection that was open before.
unfoldable pub still_there : World → Conn → Text → Script (Unit {0})
still_there w c word = do
  answer ←
      catch (do send w c (text "PING :" ++ word ++ text "\r\n"); recv w c (text "PONG") 4000)
        (fail w paths connection_broke)
  check w paths (contains answer (text "PONG")) no_pong

unfoldable pub fillers_there : World → ℕ → ℕ → Script (Unit {0})
fillers_there w i zero = give tt
fillers_there w i (suc n) = do
  still_there w (filler i) (filler_name i)
  act (closed (filler i))
  fillers_there w (suc i) n

-- The rest of the frame that was begun before.
unfoldable pub frame_completed : World → Bytes → Script (Unit {0})
frame_completed w midframe = do
  answer ←
      catch (do send w conn_w (drop 7 midframe); ws_recv w conn_w (text "PONG") 4000)
        (fail w paths connection_broke)
  check w paths (contains answer (text "PONG") && contains answer (text "midframe")) no_pong
  act (closed conn_w)
  act (closed conn_t)

unfoldable pub same_token : World → Text → Script (Unit {0})
unfolding same
same_token w token_before = do
  token_after ← session_token w
  check w paths (same token_after token_before) token_changed

-- `"i" in umode.split(" 221 ", 1)[1]`
abbrev pub invisible : Option (Text × Text) → Bool
invisible none = false
invisible (some (before, after)) = contains after (text "i")

-- The survivor's mode, its watch list and its silence list.
unfoldable pub client_state : World → Script (Unit {0})
unfolding cut
client_state w = do
  send w conn_d (text "MODE survivor\r\n")
  umode ← recv w conn_d (text " 221 ") 4000
  check w paths (contains umode (text " 221 ") && invisible (cut (text " 221 ") umode)) umode_lost
  send w conn_d (text "MONITOR L\r\n")
  watched ← recv w conn_d (text " 733 ") 4000
  check w paths (contains watched (text "watchtarget")) monitor_lost
  send w conn_d (text "SILENCE\r\n")
  silenced ← recv w conn_d (text " 272 ") 4000
  check w paths (contains silenced (text "bad!*@*")) silence_lost

-- What others see of it.
unfoldable pub world_state : World → Script (Unit {0})
world_state w = do
  connect w conn_c2
  send w conn_c2 (text "NICK whoiser\r\nUSER whoiser 0 * :whoiser\r\n")
  hello ← recv w conn_c2 (text " 001 ") 4000
  send w conn_c2 (text "WHOIS survivor\r\n")
  whois ← recv w conn_c2 (text " 318 ") 4000
  act (closed conn_c2)
  check w paths (contains whois (text " 311 ")) nick_lost
  connect w conn_e
  send w conn_e (text "NICK joiner\r\nUSER joiner 0 * :joiner\r\n")
  welcome ← recv w conn_e (text " 001 ") 4000
  send w conn_e (text "JOIN #durable\r\n")
  names ← recv w conn_e (text " 366 ") 4000
  act (closed conn_e)
  act (closed conn_d)
  check w paths (contains names (text "survivor")) membership_lost

-- A new client, then the end.
unfoldable pub finish : World → Script ℕ
finish w = do
  act (closed conn_a)
  act (slept 300)
  connect w conn_c
  greet w conn_c (text "NICK after\r\nUSER after 0 * :after\r\n")
  act (closed conn_c)
  cleanup w paths
  give 0

-- What was carried over, then the end.
unfoldable pub carried_over : World → Text → Script ℕ
carried_over w token_before = do same_token w token_before; client_state w; world_state w; finish w

-- What is asked of the successor about the clients that were there before.
unfoldable pub successor : World → ℕ → Text → Bytes → Script ℕ
successor w pid_before token_before midframe = do
  handover w pid_before
  still_there w conn_d (text "survive")
  fillers_there w 0 filler_clients
  still_there w conn_t (text "tls-survive")
  frame_completed w midframe
  carried_over w token_before

-- All behind the test for the binary.
unfoldable pub session : World → Script ℕ
session w = do
  pid_before ← boot w
  accounts w
  operator w
  token_before ← survivor w
  tls_client w
  midframe ← ws_client w
  fillers w 0 filler_clients
  upgrade w
  successor w pid_before token_before midframe

-- `main`, by whether there is a binary.
unfoldable pub main_if : World → Bool → Script ℕ
unfolding session fail_early
main_if w exists = if exists then session w else fail_early w paths no_binary

unfoldable pub main : World → Script ℕ
unfolding main_if
main w = main_if w w.binary_exists
