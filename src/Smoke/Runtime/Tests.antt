-- ===== src/Smoke/Runtime/Tests.antt =====
-- A daemon that behaves, and one that dies.
use orochi.Prelude.{none, ◌≡◌, refl, true, false, some, [], ◌∷◌}
use orochi.Text.{text, contains, show, starts_with}
use orochi.Smoke.{recv_until}
use orochi.Smoke.Session.{
  World, Trace, returned, poll, connect, send, recv, remove_all, stop, stop_if, cleanup, check,
}
use orochi.Smoke.Session.Ends.{IsClean, LeavesClean}
use orochi.Smoke.Runtime.{
  paths, wait_for, remaining, register, ping, quit, boot, finish, session, main_if, main,
}
use orochi.Smoke.Runtime.Success.{Registered, Ponged, main-success, main-LeavesClean}

-- Every reception gives the welcome and the PONG in two chunks.
abbrev daemon : World
daemon = record {
  binary_exists = true;
  stack_hard_limit = none;
  running = λ tr. true;
  pid = λ tr. 7;
  stops_in_time = λ tr. true;
  accepts = λ c tr. true;
  delivers = λ c tr. true;
  chunks = λ c tr. some (text ":s 00" ∷ text "1 smoke :hi\r\n:s PONG s :smoke-runtime\r\n" ∷ []);
  elapsed = λ tr. 2500;
  random = λ n tr. [];
  log = λ tr. [];
  decode = λ s. s;
}

abbrev events : Trace
events = (main daemon []).1

runs : main daemon [] ≡ (returned 0, events)
unfolding main main_if session boot register ping quit finish wait_for remaining poll connect send
    recv recv_until contains starts_with check cleanup stop_if stop remove_all show
runs = refl

main-success_example : IsClean paths events × Registered events × Ponged events
main-success_example = main-success daemon 0 events runs

-- This one dies while it boots, and is found dead.
abbrev dying : World
dying = record daemon { running = λ tr. false }

main-LeavesClean_example : LeavesClean paths (main dying [])
main-LeavesClean_example = main-LeavesClean dying
