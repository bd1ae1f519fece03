-- ===== src/Smoke/Upgrade/Success.antt =====
-- What a success of tools/upgrade_smoke.py proves of the daemon, and how every run leaves it.
use orochi.Prelude.{ℕ, zero, suc, ◌≡◌, Bool, true, false, [], ◌∷◌, Option, none, some, Has, subst}
use orochi.Text.{Text, text}
use orochi.Smoke.{Bytes}
use orochi.Smoke.Session.{
  World, Trace, Conn, conn_c, conn_d, conn_t, conn_w, closed, returned, Reason, no_binary,
  shard_not_adopted, connect, fail_early, check, cleanup, remove_all,
}
use orochi.Smoke.Session.Ends.{
  LeavesClean, leaves, fail_early-LeavesClean, IsClean, cleanup-IsClean,
}
use orochi.Smoke.Session.Keeps.{Keeps, keeps_rules, give-Keeps, check-Keeps, fail-Keeps, then-Keeps}
use orochi.Smoke.Session.Success.{returned-elim, exits}
use orochi.Smoke.Upgrade.{paths, filler_clients, greet, need, session_token}
use orochi.Smoke.Upgrade.Before.{
  boot, accounts, operator, survivor, tls_client, ws_client, fillers, upgrade,
}
use orochi.Smoke.Upgrade.After.{
  check_shards, handover, still_there, fillers_there, frame_completed, same_token, client_state,
  world_state, finish, carried_over, successor, session, main_if, main,
}
use orochi.Smoke.Upgrade.Ends.{session-Tidy}
use orochi.Smoke.Upgrade.Survivors.{
  order, Survives, lasts, Survives-lasts, order-lasts, upgrade-Has, still_there-Survives,
  still_there-Keeps, fillers_there-Keeps, AllSurvive, AllSurvive-later, fillers_there-AllSurvive,
  frame_completed-Survives,
}

need-Keeps : {A : Type 0} (w : World) (o : Option A) (r : Reason) → Keeps (need w o r)
need-Keeps w none r = fail-Keeps w paths r
need-Keeps w (some a) r = give-Keeps a

greet-Keeps : (w : World) (c : Conn) (hello : Bytes) → Keeps (greet w c hello)
unfolding greet
greet-Keeps w c hello = search (keeps_rules) depth 20

session_token-Keeps : (w : World) → Keeps (session_token w)
unfolding session_token
session_token-Keeps w = search (keeps_rules, need-Keeps) depth 20

check_shards-Keeps : (w : World) (log : Text) (shard n : ℕ) → Keeps (check_shards w log shard n)
unfolding check_shards
check_shards-Keeps w log shard zero = give-Keeps tt
check_shards-Keeps w log shard (suc n) =
    then-Keeps (check w paths _ shard_not_adopted) (check_shards w log (suc shard) n)
      (check-Keeps w paths _ shard_not_adopted) (check_shards-Keeps w log (suc shard) n)

handover-Keeps : (w : World) (pid_before : ℕ) → Keeps (handover w pid_before)
unfolding handover
handover-Keeps w pid_before = search (keeps_rules, check_shards-Keeps, need-Keeps) depth 30

frame_completed-Keeps : (w : World) (midframe : Bytes) → Keeps (frame_completed w midframe)
unfolding frame_completed
frame_completed-Keeps w midframe = search (keeps_rules) depth 20

same_token-Keeps : (w : World) (token_before : Text) → Keeps (same_token w token_before)
unfolding same_token
same_token-Keeps w token_before = search (keeps_rules, session_token-Keeps) depth 20

client_state-Keeps : (w : World) → Keeps (client_state w)
unfolding client_state
client_state-Keeps w = search (keeps_rules) depth 30

world_state-Keeps : (w : World) → Keeps (world_state w)
unfolding world_state
world_state-Keeps w = search (keeps_rules) depth 40

finish-Keeps : (w : World) → Keeps (finish w)
unfolding finish
finish-Keeps w = search (keeps_rules, greet-Keeps) depth 20

carried_over-Keeps : (w : World) (token_before : Text) → Keeps (carried_over w token_before)
unfolding carried_over
carried_over-Keeps w token_before =
    search (keeps_rules, same_token-Keeps, client_state-Keeps, world_state-Keeps, finish-Keeps)
      depth 20

finish-IsClean :
    (w : World) (n : ℕ) (before after : Trace)
    → finish w before ≡ (returned n, after)
    → IsClean paths after
unfolding finish
finish-IsClean w n before after h = returned-elim _ (connect w conn_c) h λ u t₁ e₁ h₁.
    returned-elim _ (greet w conn_c (text "NICK after\r\nUSER after 0 * :after\r\n")) h₁
      λ u₂ t₂ e₂ h₂. returned-elim _ (cleanup w paths) h₂ λ u₃ t₃ e₃ h₃.
        let (t, e, c) = cleanup-IsClean w paths (closed conn_c ∷ t₂) in
        let same_trace : t ≡ after = cc in subst (IsClean paths) same_trace c

carried_over-IsClean :
    (w : World) (token_before : Text) (n : ℕ) (before after : Trace)
    → carried_over w token_before before ≡ (returned n, after)
    → IsClean paths after
unfolding carried_over
carried_over-IsClean w token_before n before after h =
    returned-elim _ (same_token w token_before) h λ u t₁ e₁ h₁.
      returned-elim _ (client_state w) h₁ λ u₂ t₂ e₂ h₂.
        returned-elim _ (world_state w) h₂ λ u₃ t₃ e₃ h₃. finish-IsClean w n t₃ after h₃

-- The survivors of a run, and its end.
abbrev pub Passes : Trace → Type 0
Passes after =
    IsClean paths after
    × Survives conn_d after
    × Survives conn_t after
    × Survives conn_w after
    × AllSurvive 0 filler_clients after

successor-Passes :
    (w : World) (pid_before : ℕ) (token_before : Text) (midframe : Bytes) (n : ℕ)
    (before after : Trace)
    → successor w pid_before token_before midframe before ≡ (returned n, after)
    → Has order before
    → Passes after
unfolding successor
successor-Passes w pid_before token_before midframe n before after h o =
    returned-elim _ (handover w pid_before) h λ u t₁ e₁ h₁.
      returned-elim _ (still_there w conn_d (text "survive")) h₁ λ u₂ t₂ e₂ h₂.
        returned-elim _ (fillers_there w 0 filler_clients) h₂ λ u₃ t₃ e₃ h₃.
          returned-elim _ (still_there w conn_t (text "tls-survive")) h₃ λ u₄ t₄ e₄ h₄.
            returned-elim _ (frame_completed w midframe) h₄ λ u₅ t₅ e₅ h₅.
              let o₁ =
                order-lasts (handover w pid_before) before (handover-Keeps w pid_before) e₁ o in
              let o₂ =
                order-lasts (still_there w conn_d (text "survive")) t₁ (still_there-Keeps w _ _) e₂
                  o₁ in
              let o₃ =
                order-lasts (fillers_there w 0 filler_clients) t₂ (fillers_there-Keeps w _ _) e₃
                  o₂ in
              let o₄ =
                order-lasts (still_there w conn_t (text "tls-survive")) t₃ (still_there-Keeps w _ _)
                  e₄ o₃ in
              let d₃ =
                Survives-lasts (fillers_there w 0 filler_clients) t₂ (fillers_there-Keeps w _ _) e₃
                  (still_there-Survives w conn_d (text "survive") t₁ t₂ e₂ o₁) in
              let d₄ =
                Survives-lasts (still_there w conn_t (text "tls-survive")) t₃
                  (still_there-Keeps w _ _) e₄ d₃ in
              let f₄ =
                lasts (AllSurvive 0 filler_clients) (still_there w conn_t (text "tls-survive")) t₃
                  (AllSurvive-later 0 filler_clients) (still_there-Keeps w _ _) e₄
                  (fillers_there-AllSurvive w 0 filler_clients t₂ t₃ e₃ o₂) in
              let all₅ =
                lasts
                  (λ tr. Survives conn_d tr × Survives conn_t tr × AllSurvive 0 filler_clients tr)
                  (frame_completed w midframe) t₄
                  (λ e tr i. (
                    Survives.later i.0,
                    Survives.later i.1,
                    AllSurvive-later 0 filler_clients e tr i.2,
                  ))
                  (frame_completed-Keeps w midframe) e₅
                  (d₄, still_there-Survives w conn_t (text "tls-survive") t₃ t₄ e₄ o₃, f₄) in
              let w₅ = frame_completed-Survives w midframe t₄ t₅ e₅ o₄ in
              let ends = carried_over-Keeps w token_before in
              let fillers_last =
                lasts (AllSurvive 0 filler_clients) (carried_over w token_before) t₅
                  (AllSurvive-later 0 filler_clients) ends h₅ all₅.2 in
              (
                carried_over-IsClean w token_before n t₅ after h₅,
                Survives-lasts (carried_over w token_before) t₅ ends h₅ all₅.0,
                Survives-lasts (carried_over w token_before) t₅ ends h₅ all₅.1,
                Survives-lasts (carried_over w token_before) t₅ ends h₅ w₅,
                fillers_last,
              )

session-Passes :
    (w : World) (n : ℕ) (before after : Trace)
    → session w before ≡ (returned n, after)
    → Passes after
unfolding session
session-Passes w n before after h = returned-elim _ (boot w) h λ pid_before t₁ e₁ h₁.
    returned-elim _ (accounts w) h₁ λ u₂ t₂ e₂ h₂. returned-elim _ (operator w) h₂ λ u₃ t₃ e₃ h₃.
      returned-elim _ (survivor w) h₃ λ token_before t₄ e₄ h₄.
        returned-elim _ (tls_client w) h₄ λ u₅ t₅ e₅ h₅.
          returned-elim _ (ws_client w) h₅ λ midframe t₆ e₆ h₆.
            returned-elim _ (fillers w 0 filler_clients) h₆ λ u₇ t₇ e₇ h₇.
              returned-elim _ (upgrade w) h₇ λ u₈ t₈ e₈ h₈.
                successor-Passes w pid_before token_before midframe n t₈ after h₈
                  (upgrade-Has w t₇ t₈ e₈)

main_if-Passes :
    (w : World) (exists : Bool) (n : ℕ) (after : Trace)
    → main_if w exists [] ≡ (returned n, after)
    → Passes after
unfolding main_if fail_early
main_if-Passes w false n after h = absurd (exits no_binary (remove_all w paths []) h)
main_if-Passes w true n after h = session-Passes w n [] after h

-- If `main` returns, then after UPGRADE was sent a text with PONG has come on the connections of the
-- survivor, of the TLS client, of the WebSocket client and of the eight fillers. At the end the daemon
-- was found dead, or was told to end and either ended before the timeout or was killed after it, and
-- the removal of the files was tried.
pub main-Passes :
    (w : World) (n : ℕ) (after : Trace) → main w [] ≡ (returned n, after) → Passes after
unfolding main
main-Passes w n after h = main_if-Passes w w.binary_exists n after h

main_if-LeavesClean : (w : World) (exists : Bool) → LeavesClean paths (main_if w exists [])
unfolding main_if
main_if-LeavesClean w false = fail_early-LeavesClean w paths
main_if-LeavesClean w true =
    leaves paths (session w []) ((session-Tidy w).tidy [])
      (λ n after h. (session-Passes w n [] after h).0)

-- However the daemon and the sockets behave, a run of the upgrade test that is not ended by an
-- exception ends with the daemon found dead, seen to end before the timeout, or killed after it, and
-- then with the attempt to remove each file; or it has found no binary, started nothing and tried to
-- remove the files.
pub upgrade_main-LeavesClean : (w : World) → LeavesClean paths (main w [])
unfolding main
upgrade_main-LeavesClean w = main_if-LeavesClean w w.binary_exists
