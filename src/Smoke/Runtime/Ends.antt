-- ===== src/Smoke/Runtime/Ends.antt =====
-- How tools/runtime_smoke.py leaves the daemon.
use orochi.Prelude.{ℕ, min}
use orochi.Smoke.{Bytes}
use orochi.Smoke.Session.{World, conn_c}
use orochi.Smoke.Session.Ends.{Tidy, recv-Tidy, tidy_rules}
use orochi.Smoke.Runtime.{boot, finish, paths, wait_for, remaining, register, ping, quit, session}

wait_for-Tidy : (w : World) (needle : Bytes) (timeout : ℕ) → Tidy paths (wait_for w needle timeout)
unfolding wait_for
wait_for-Tidy w needle timeout = record {
  tidy = λ tr. (recv-Tidy w conn_c needle (min timeout (remaining w tr))).tidy tr;
}

register-Tidy : (w : World) → Tidy paths (register w)
unfolding register
register-Tidy w = search (tidy_rules, wait_for-Tidy)

ping-Tidy : (w : World) → Tidy paths (ping w)
unfolding ping
ping-Tidy w = search (tidy_rules, wait_for-Tidy)

quit-Tidy : (w : World) → Tidy paths (quit w)
unfolding quit
quit-Tidy w = search (tidy_rules, wait_for-Tidy)

boot-Tidy : (w : World) → Tidy paths (boot w)
unfolding boot
boot-Tidy w = search (tidy_rules) depth 20

finish-Tidy : (w : World) → Tidy paths (finish w)
unfolding finish
finish-Tidy w = search (tidy_rules, quit-Tidy) depth 20

pub session-Tidy : (w : World) → Tidy paths (session w)
unfolding session
session-Tidy w = search (tidy_rules, boot-Tidy, register-Tidy, ping-Tidy, finish-Tidy) depth 20
