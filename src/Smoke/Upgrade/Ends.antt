-- ===== src/Smoke/Upgrade/Ends.antt =====
-- How tools/upgrade_smoke.py leaves the daemon.
use orochi.Prelude.{ℕ, zero, suc, Bool, true, false, Option, none, some, if◌then◌else◌}
use orochi.Text.{Text}
use orochi.Smoke.{Bytes}
use orochi.Smoke.Session.{
  World, Conn, filler, closed, act, connect, check, shard_not_adopted, Reason, Trace, raised, give,
  send,
}
use orochi.Smoke.Session.Ends.{
  Tidy, give-Tidy, act-Tidy, check-Tidy, connect-Tidy, then-Tidy, fail-Tidy, send-Tidy, tidy_rules,
}
use orochi.Smoke.Upgrade.{paths, greet, register, login, need, session_token}
use orochi.Smoke.Upgrade.Before.{
  boot, accounts, operator, survivor, tls_client, ws_connect, ws_client, fillers, filler_name,
  upgrade,
}
use orochi.Smoke.Upgrade.After.{
  check_shards, handover, still_there, fillers_there, frame_completed, same_token, client_state,
  world_state, finish, carried_over, successor, session,
}

need-Tidy : {A : Type 0} (w : World) (o : Option A) (r : Reason) → Tidy paths (need w o r)
need-Tidy w none r = fail-Tidy w r
need-Tidy w (some a) r = give-Tidy a

greet-Tidy : (w : World) (c : Conn) (hello : Bytes) → Tidy paths (greet w c hello)
unfolding greet
greet-Tidy w c hello = search (tidy_rules) depth 20

register-Tidy : (w : World) (c : Conn) (name secret : Text) → Tidy paths (register w c name secret)
unfolding register
register-Tidy w c name secret = search (tidy_rules) depth 20

login-Tidy : (w : World) (c : Conn) (name secret : Text) → Tidy paths (login w c name secret)
unfolding login
login-Tidy w c name secret = search (tidy_rules) depth 30

session_token-Tidy : (w : World) → Tidy paths (session_token w)
unfolding session_token
session_token-Tidy w = search (tidy_rules, need-Tidy) depth 20

boot-Tidy : (w : World) → Tidy paths (boot w)
unfolding boot
boot-Tidy w = search (tidy_rules) depth 20

accounts-Tidy : (w : World) → Tidy paths (accounts w)
unfolding accounts
accounts-Tidy w = search (tidy_rules, greet-Tidy, register-Tidy) depth 20

operator-Tidy : (w : World) → Tidy paths (operator w)
unfolding operator
operator-Tidy w = search (tidy_rules, login-Tidy) depth 20

survivor-Tidy : (w : World) → Tidy paths (survivor w)
unfolding survivor
survivor-Tidy w = search (tidy_rules, login-Tidy, greet-Tidy, session_token-Tidy) depth 20

tls_client-Tidy : (w : World) → Tidy paths (tls_client w)
unfolding tls_client
tls_client-Tidy w = search (tidy_rules, greet-Tidy) depth 20

refused-Tidy : (b : Bool) → Tidy paths (if b then give tt else (λ tr. (raised, tr)))
refused-Tidy true = give-Tidy tt
refused-Tidy false = record { tidy = λ tr. tt }

at_trace-Tidy : (w : World) (c : Conn) (s : Trace → Bytes) → Tidy paths (λ tr. send w c (s tr) tr)
at_trace-Tidy w c s = record { tidy = λ tr. (send-Tidy w c (s tr)).tidy tr }

ws_connect-Tidy : (w : World) → Tidy paths (ws_connect w)
unfolding ws_connect
ws_connect-Tidy w = search (tidy_rules, refused-Tidy, at_trace-Tidy) depth 20

ws_client-Tidy : (w : World) → Tidy paths (ws_client w)
unfolding ws_client
ws_client-Tidy w = search (tidy_rules, ws_connect-Tidy) depth 30

fillers-Tidy : (w : World) (i n : ℕ) → Tidy paths (fillers w i n)
unfolding fillers
fillers-Tidy w i zero = give-Tidy tt
fillers-Tidy w i (suc n) = then-Tidy (connect w (filler i)) _ (connect-Tidy w (filler i)) (
    then-Tidy (greet w (filler i) _) (fillers w (suc i) n) (greet-Tidy w (filler i) _)
      (fillers-Tidy w (suc i) n))

upgrade-Tidy : (w : World) → Tidy paths (upgrade w)
unfolding upgrade
upgrade-Tidy w = search (tidy_rules) depth 20

check_shards-Tidy : (w : World) (log : Text) (shard n : ℕ) → Tidy paths (check_shards w log shard n)
unfolding check_shards
check_shards-Tidy w log shard zero = give-Tidy tt
check_shards-Tidy w log shard (suc n) =
    then-Tidy (check w paths _ shard_not_adopted) (check_shards w log (suc shard) n)
      (check-Tidy w _ shard_not_adopted) (check_shards-Tidy w log (suc shard) n)

handover-Tidy : (w : World) (pid_before : ℕ) → Tidy paths (handover w pid_before)
unfolding handover
handover-Tidy w pid_before = search (tidy_rules, check_shards-Tidy, need-Tidy) depth 30

still_there-Tidy : (w : World) (c : Conn) (word : Text) → Tidy paths (still_there w c word)
unfolding still_there
still_there-Tidy w c word = search (tidy_rules) depth 20

fillers_there-Tidy : (w : World) (i n : ℕ) → Tidy paths (fillers_there w i n)
unfolding fillers_there
fillers_there-Tidy w i zero = give-Tidy tt
fillers_there-Tidy w i (suc n) =
    then-Tidy (still_there w (filler i) (filler_name i)) _
      (still_there-Tidy w (filler i) (filler_name i))
      (then-Tidy (act (closed (filler i))) (fillers_there w (suc i) n)
        (act-Tidy (closed (filler i))) (fillers_there-Tidy w (suc i) n))

frame_completed-Tidy : (w : World) (midframe : Bytes) → Tidy paths (frame_completed w midframe)
unfolding frame_completed
frame_completed-Tidy w midframe = search (tidy_rules) depth 20

same_token-Tidy : (w : World) (token_before : Text) → Tidy paths (same_token w token_before)
unfolding same_token
same_token-Tidy w token_before = search (tidy_rules, session_token-Tidy) depth 20

client_state-Tidy : (w : World) → Tidy paths (client_state w)
unfolding client_state
client_state-Tidy w = search (tidy_rules) depth 30

world_state-Tidy : (w : World) → Tidy paths (world_state w)
unfolding world_state
world_state-Tidy w = search (tidy_rules) depth 40

finish-Tidy : (w : World) → Tidy paths (finish w)
unfolding finish
finish-Tidy w = search (tidy_rules, greet-Tidy) depth 20

carried_over-Tidy : (w : World) (token_before : Text) → Tidy paths (carried_over w token_before)
unfolding carried_over
carried_over-Tidy w token_before =
    search (tidy_rules, same_token-Tidy, client_state-Tidy, world_state-Tidy, finish-Tidy) depth 20

successor-Tidy :
    (w : World) (pid_before : ℕ) (token_before : Text) (midframe : Bytes)
    → Tidy paths (successor w pid_before token_before midframe)
unfolding successor
successor-Tidy w pid_before token_before midframe =
    search
      (
        tidy_rules, handover-Tidy, still_there-Tidy, fillers_there-Tidy, frame_completed-Tidy,
        carried_over-Tidy,
      )
      depth 20

pub session-Tidy : (w : World) → Tidy paths (session w)
unfolding session
session-Tidy w =
    search
      (
        tidy_rules, boot-Tidy, accounts-Tidy, operator-Tidy, survivor-Tidy, tls_client-Tidy,
        ws_client-Tidy, fillers-Tidy, upgrade-Tidy, successor-Tidy,
      )
      depth 30
