-- ===== src/Smoke/Upgrade/Tests.antt =====
-- A daemon whose upgrade passes, and tests of the patterns.
use orochi.Prelude.{none, ◌≡◌, refl, true, false, some, List, [], ◌∷◌, ◌++◌, length}
use orochi.Text.{Text, text, contains, show, starts_with, drop_prefix, same}
use orochi.Text.Split.{cut}
use orochi.Text.Encode.{base64}
use orochi.Smoke.{
  Bytes, recv_until, ws_recv_text, ws_frame, to_bytes, masked, receive, drain, drain_loop,
  next_frame, length_field, from_bytes,
}
use orochi.Smoke.Session.{
  World, Trace, Conn, conn_w, returned, poll, pid, log_text, frame, connect, send, recv, ws_recv,
  remove_all, stop, stop_if, cleanup, check,
}
use orochi.Smoke.Session.Ends.{LeavesClean}
use orochi.Smoke.Upgrade.{paths, greet, register, login, session_token}
use orochi.Smoke.Upgrade.Pattern.{find_all, match_at, digits, value, hex_run, token_in}
use orochi.Smoke.Upgrade.Before.{
  boot, accounts, operator, survivor, tls_client, ws_connect, ws_client, fillers, upgrade,
}
use orochi.Smoke.Upgrade.After.{
  seal_line, sets_shard, sealed_elsewhere, adopted, check_shards, handover, still_there,
  fillers_there, frame_completed, same_token, client_state, world_state, finish, carried_over,
  successor, session, main_if, main,
}
use orochi.Smoke.Upgrade.Success.{Passes, main-Passes, upgrade_main-LeavesClean}

seals_found :
    find_all seal_line
      (text "a\nUPGRADE — shard 0: 3 client(s) sealed\nUPGRADE — shard 1: 12 client(s) sealed\n")
    ≡ (0 ∷ 3 ∷ []) ∷ (1 ∷ 12 ∷ []) ∷ []
unfolding find_all match_at digits value drop_prefix
seals_found = refl

-- The last line on a shard counts.
reset_shard : sealed_elsewhere ((1 ∷ 4 ∷ []) ∷ (1 ∷ 0 ∷ []) ∷ []) ≡ false
unfolding sealed_elsewhere sets_shard
reset_shard = refl

token_found :
    token_in (text "NOTICE :SESSION TOKEN x\r\nSESSION TOKEN 0aF9 ok") ≡ some (text "0aF9")
unfolding token_in hex_run drop_prefix
token_found = refl

-- One text that answers everything.
abbrev answer_text : Text
answer_text =
    text
      ":s 001 CAP REGISTER SUCCESS AUTHENTICATE + 900 :s 381 :s 366 :s 731 SESSION TOKEN ab12 PONG"
    ++ text " :s 221 survivor +i :s 733 watchtarget 272 bad!*@* :s 311 survivor :s 318 \r\n"

abbrev ws_text : Text
ws_text = text "101 :s 001 PONG midframe"

abbrev chunks_of : Conn → List Bytes
chunks_of conn_w = ((0x81 ∷ length ws_text ∷ []) ++ ws_text) ∷ []
chunks_of _ = answer_text ∷ []

abbrev daemon : World
daemon = record {
  binary_exists = true;
  stack_hard_limit = none;
  running = λ tr. true;
  pid = λ tr. 7;
  stops_in_time = λ tr. true;
  accepts = λ c tr. true;
  delivers = λ c tr. true;
  chunks = λ c tr. some (chunks_of c);
  elapsed = λ tr. 0;
  random = λ n tr. 1 ∷ 2 ∷ 3 ∷ 4 ∷ [];
  log = λ tr.
      text "UPGRADE — shard 0: 3 client(s) sealed\nUPGRADE — shard 1: 9 client(s) sealed\n"
      ++ text
          "adopting inherited listener fd 5 (shard 0)\nadopting inherited listener fd 6 (shard 1)\n"
      ++ text "re-attached 12 client connection(s) (2 TLS, 1 wss)\n";
  decode = λ s. s;
}

abbrev events : Trace
events = (main daemon []).1

runs : main daemon [] ≡ (returned 0, events)
unfolding main main_if session boot accounts operator survivor tls_client ws_connect ws_client
    fillers upgrade successor handover check_shards still_there fillers_there frame_completed
    same_token client_state world_state finish carried_over greet register login session_token
    sealed_elsewhere sets_shard adopted find_all match_at digits value hex_run token_in poll pid
    log_text frame connect send recv ws_recv recv_until ws_recv_text ws_frame to_bytes masked
    contains starts_with drop_prefix same cut check cleanup stop_if stop remove_all show base64
    receive drain drain_loop next_frame length_field from_bytes
runs = refl

main-Passes_example : Passes events
main-Passes_example = main-Passes daemon 0 events runs

-- The successor is silent.
abbrev silent : World
silent = record daemon { log = λ tr. [] }

upgrade_main-LeavesClean_example : LeavesClean paths (main silent [])
upgrade_main-LeavesClean_example = upgrade_main-LeavesClean silent
