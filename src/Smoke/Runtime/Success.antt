-- ===== src/Smoke/Runtime/Success.antt =====
-- What a run of tools/runtime_smoke.py proves of the daemon, and how it leaves it.
use orochi.Prelude.{ℕ, ◌≡◌, Bool, true, false, ◌&&◌, ◌∷◌, [], min, Has, subst, sym, ap, here}
use orochi.Text.{Text, text, contains}
use orochi.Smoke.{Bytes}
use orochi.Smoke.Session.{
  World, Trace, Event, Reason, received, sent, ◌>>=◌, ◌>>◌, returned, no_binary, poll, conn_c,
  connect, send, recv, Script, cleanup, check, fail_early, remove_all, died_in_service,
  not_registered, no_pong,
}
use orochi.Smoke.Session.Ends.{
  LeavesClean, leaves, fail_early-LeavesClean, IsClean, cleanup-IsClean,
}
use orochi.Smoke.Session.Keeps.{Keeps, keeps_rules, recv-Keeps}
use orochi.Smoke.Session.Success.{returned-elim, exits, check-good, send-eq, heard-eq}
use orochi.Smoke.Runtime.Ends.{session-Tidy}
use orochi.Smoke.Runtime.{
  paths, wait_for, remaining, register, ping, quit, boot, finish, session, main_if, main,
}

wait_for-Keeps : (w : World) (needle : Bytes) (timeout : ℕ) → Keeps (wait_for w needle timeout)
unfolding wait_for
wait_for-Keeps w needle timeout = record {
  keeps = λ P up tr. (recv-Keeps w conn_c needle (min timeout (remaining w tr))).keeps P up tr;
}

-- After `request` was sent to the daemon, a text came from it of which the test holds.
pub data Answered (request needle : Bytes) (good : Text → Bool) : Trace → Type 0 where
  answered :
      {tr : Trace} {timeout : ℕ} {answer : Text}
      → Has (sent conn_c request) tr
      → good answer ≡ true
      → Answered request needle good (received conn_c needle timeout answer ∷ tr)
  later :
      {e : Event} {tr : Trace}
      → Answered request needle good tr
      → Answered request needle good (e ∷ tr)

-- The registration was answered by a welcome.
abbrev pub Registered : Trace → Type 0
Registered =
    Answered (text "NICK smoke\r\nUSER smoke 0 * :smoke\r\n") (text " 001 ")
      (λ t. contains t (text " 001 "))

-- The PING with the token was answered by a PONG with it.
abbrev pub Ponged : Trace → Type 0
Ponged =
    Answered (text "PING :smoke-runtime\r\n") (text "PONG")
      (λ t. contains t (text "PONG") && contains t (text "smoke-runtime"))

-- A request, the wait for its answer and the check of the answer.
exchange-Answered :
    (w : World) (request needle : Bytes) (good : Text → Bool) (r : Reason) (before after : Trace)
    → (do send w conn_c request; answer ← wait_for w needle 4000; check w paths (good answer) r)
        before
      ≡ (returned tt, after)
    → Answered request needle good after
unfolding wait_for recv
exchange-Answered w request needle good r before after h =
    returned-elim _ (send w conn_c request) h λ u t₁ s h₁.
      returned-elim _ (wait_for w needle 4000) h₁ λ answer t₂ e h₂.
        let (passed, same_trace) = check-good w paths (good answer) r h₂ in
        let last = heard-eq conn_c needle (min 4000 (remaining w t₁)) _ (w.chunks conn_c t₁) t₁ e in
        let has = subst (Has (sent conn_c request)) (send-eq w conn_c request before s) here in
        subst (Answered request needle good) (sym same_trace)
          (subst (Answered request needle good) last (answered has passed))

register-Registered :
    (w : World) (before after : Trace) → register w before ≡ (returned tt, after) → Registered after
unfolding register
register-Registered w before after h = returned-elim _ (connect w conn_c) h λ u t₁ c h₁.
    exchange-Answered w (text "NICK smoke\r\nUSER smoke 0 * :smoke\r\n") (text " 001 ")
      (λ t. contains t (text " 001 ")) not_registered t₁ after h₁

ping-Ponged :
    (w : World) (before after : Trace) → ping w before ≡ (returned tt, after) → Ponged after
unfolding ping
ping-Ponged w before after h =
    exchange-Answered w (text "PING :smoke-runtime\r\n") (text "PONG")
      (λ t. contains t (text "PONG") && contains t (text "smoke-runtime")) no_pong before after h

-- What was answered stays answered.
Answered-lasts :
    {request needle : Bytes} {good : Text → Bool} {A : Type 0} (m : Script A) (before : Trace)
    {a : A} {after : Trace}
    → Keeps m
    → m before ≡ (returned a, after)
    → Answered request needle good before
    → Answered request needle good after
Answered-lasts {request} {needle} {good} m before k e h =
    subst (Answered request needle good) (ap (λ x. x.1) e)
      (k.keeps (Answered request needle good) (λ x tr i. later i) before h)

ping-Keeps : (w : World) → Keeps (ping w)
unfolding ping
ping-Keeps w = search (keeps_rules, wait_for-Keeps) depth 20

quit-Keeps : (w : World) → Keeps (quit w)
unfolding quit
quit-Keeps w = search (keeps_rules, wait_for-Keeps) depth 20

finish-Keeps : (w : World) → Keeps (finish w)
unfolding finish
finish-Keeps w = search (keeps_rules, quit-Keeps) depth 20

finish-IsClean :
    (w : World) (n : ℕ) (before after : Trace)
    → finish w before ≡ (returned n, after)
    → IsClean paths after
unfolding finish
finish-IsClean w n before after h = returned-elim _ (quit w) h λ u t₁ e₁ h₁.
    returned-elim _ (poll w) h₁ λ alive t₂ e₂ h₂.
      returned-elim _ (check w paths alive died_in_service) h₂ λ u₃ t₃ e₃ h₃.
        returned-elim _ (cleanup w paths) h₃ λ u₄ t₄ e₄ h₄.
          let (t, e, c) = cleanup-IsClean w paths t₃ in
          let same_trace : t ≡ after = cc in subst (IsClean paths) same_trace c

session-success :
    (w : World) (n : ℕ) (after : Trace)
    → session w [] ≡ (returned n, after)
    → IsClean paths after × Registered after × Ponged after
unfolding session
session-success w n after h = returned-elim _ (boot w) h λ u t₁ e₁ h₁.
    returned-elim _ (register w) h₁ λ u₂ t₂ e₂ h₂. returned-elim _ (ping w) h₂ λ u₃ t₃ e₃ h₃. (
      finish-IsClean w n t₃ after h₃,
      Answered-lasts (finish w) t₃ (finish-Keeps w) h₃
          (Answered-lasts (ping w) t₂ (ping-Keeps w) e₃ (register-Registered w t₁ t₂ e₂)),
      Answered-lasts (finish w) t₃ (finish-Keeps w) h₃ (ping-Ponged w t₂ t₃ e₃),
    )

main_if-success :
    (w : World) (exists : Bool) (n : ℕ) (after : Trace)
    → main_if w exists [] ≡ (returned n, after)
    → IsClean paths after × Registered after × Ponged after
unfolding main_if fail_early
main_if-success w false n after h = absurd (exits no_binary (remove_all w paths []) h)
main_if-success w true n after h = session-success w n after h

-- If `main` returns, then after NICK and USER were sent the daemon answered with a text that holds
-- " 001 ", and after the PING was sent it answered with a text that holds PONG and the token of the
-- PING. At the end the daemon was found dead, or was told to end and either ended before the timeout
-- or was killed after it, and then the removal of each file was tried.
pub main-success :
    (w : World) (n : ℕ) (after : Trace)
    → main w [] ≡ (returned n, after)
    → IsClean paths after × Registered after × Ponged after
unfolding main
main-success w n after h = main_if-success w w.binary_exists n after h

main_if-LeavesClean : (w : World) (exists : Bool) → LeavesClean paths (main_if w exists [])
unfolding main_if
main_if-LeavesClean w false = fail_early-LeavesClean w paths
main_if-LeavesClean w true =
    leaves paths (session w []) ((session-Tidy w).tidy [])
      (λ n after h. (session-success w n after h).0)

-- However the daemon and the sockets behave, a run that is not ended by an exception ends with the
-- daemon found dead, seen to end before the timeout, or killed after it, and then with the attempt to
-- remove each file; or it has found no binary, started nothing and tried to remove the files.
pub main-LeavesClean : (w : World) → LeavesClean paths (main w [])
unfolding main
main-LeavesClean w = main_if-LeavesClean w w.binary_exists
