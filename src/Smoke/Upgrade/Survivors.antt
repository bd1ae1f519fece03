-- ===== src/Smoke/Upgrade/Survivors.antt =====
-- The connections that outlast UPGRADE in tools/upgrade_smoke.py.
use orochi.Prelude.{
  arith, ℕ, zero, suc, ◌≡◌, Bool, true, ◌&&◌, ◌∷◌, ◌++◌, drop, Has, here, there, subst, sym, ap,
}
use orochi.Text.{Text, text, contains}
use orochi.Smoke.{Bytes}
use orochi.Smoke.Session.{
  World, Trace, Conn, conn_b, conn_t, conn_w, filler, Event, sent, received, closed, slept,
  returned, no_pong, connection_broke, Script, ◌>>◌, act, catch, send, recv, ws_recv, fail, check,
}
use orochi.Smoke.Session.Keeps.{
  Keeps, keeps_rules, give-Keeps, act-Keeps, then-Keeps, send-Keeps, recv-Keeps,
}
use orochi.Smoke.Session.Success.{returned-elim, check-good, send-eq, heard-eq, catch-fail}
use orochi.Smoke.Upgrade.{paths}
use orochi.Smoke.Upgrade.Before.{filler_name, upgrade}
use orochi.Smoke.Upgrade.After.{still_there, fillers_there, frame_completed}

abbrev pub order : Event
order = sent conn_b (text "UPGRADE\r\n")

-- After UPGRADE was sent, the connection brought a text with PONG.
pub data Survives (c : Conn) : Trace → Type 0 where
  answered :
      {tr : Trace} {timeout : ℕ} {answer : Text}
      → Has order tr
      → contains answer (text "PONG") ≡ true
      → Survives c (received c (text "PONG") timeout answer ∷ tr)
  later : {e : Event} {tr : Trace} → Survives c tr → Survives c (e ∷ tr)

-- What no event undoes outlasts a script that returns.
pub lasts :
    {A : Type 0} (P : Trace → Type 0) (m : Script A) (before : Trace) {a : A} {after : Trace}
    → ((e : Event) (tr : Trace) → P tr → P (e ∷ tr))
    → Keeps m
    → m before ≡ (returned a, after)
    → P before
    → P after
lasts P m before up k e h = subst P (ap (λ x. x.1) e) (k.keeps P up before h)

pub Survives-lasts :
    {A : Type 0} {c : Conn} (m : Script A) (before : Trace) {a : A} {after : Trace}
    → Keeps m
    → m before ≡ (returned a, after)
    → Survives c before
    → Survives c after
Survives-lasts {c} m before k e h = lasts (Survives c) m before (λ x tr i. later i) k e h

pub order-lasts :
    {A : Type 0} (m : Script A) (before : Trace) {a : A} {after : Trace}
    → Keeps m
    → m before ≡ (returned a, after)
    → Has order before
    → Has order after
order-lasts m before k e h = lasts (Has order) m before (λ x tr i. there i) k e h

pub upgrade-Has :
    (w : World) (before after : Trace) → upgrade w before ≡ (returned tt, after) → Has order after
unfolding upgrade
upgrade-Has w before after h = returned-elim _ (send w conn_b (text "UPGRADE\r\n")) h λ u t₁ e₁ h₁.
    returned-elim _ (recv w conn_b (text "UPGRADE") 3000) h₁ λ note t₂ e₂ h₂.
      let last : slept 2500 ∷ closed conn_b ∷ t₂ ≡ after = cc in
      let has : Has order t₁ =
        subst (Has order) (send-eq w conn_b (text "UPGRADE\r\n") before e₁) here in
      subst (Has order) last (
        there (
          there (order-lasts (recv w conn_b (text "UPGRADE") 3000) t₁ (recv-Keeps w _ _ _) e₂ has)))

pub still_there-Survives :
    (w : World) (c : Conn) (word : Text) (before after : Trace)
    → still_there w c word before ≡ (returned tt, after)
    → Has order before
    → Survives c after
unfolding still_there recv
still_there-Survives w c word before after h o =
    returned-elim _
      (catch (send w c (text "PING :" ++ word ++ text "\r\n") >> recv w c (text "PONG") 4000)
        (fail w paths connection_broke))
      h
      λ answer t₁ e₁ h₁.
        let (good, same_trace) = check-good w paths (contains answer (text "PONG")) no_pong h₁ in
        let e =
          catch-fail w paths connection_broke
            (send w c (text "PING :" ++ word ++ text "\r\n") >> recv w c (text "PONG") 4000) before
            e₁ in
        returned-elim _ (send w c (text "PING :" ++ word ++ text "\r\n")) e λ u t₂ e₂ h₂.
          let last = heard-eq c (text "PONG") 4000 _ (w.chunks c t₂) t₂ h₂ in
          subst (Survives c) (sym same_trace) (
            subst (Survives c) last
              (answered (order-lasts (send w c _) before (send-Keeps w c _) e₂ o) good))

pub still_there-Keeps : (w : World) (c : Conn) (word : Text) → Keeps (still_there w c word)
unfolding still_there
still_there-Keeps w c word = search (keeps_rules) depth 20

pub fillers_there-Keeps : (w : World) (i n : ℕ) → Keeps (fillers_there w i n)
unfolding fillers_there
fillers_there-Keeps w i zero = give-Keeps tt
fillers_there-Keeps w i (suc n) =
    then-Keeps (still_there w (filler i) (filler_name i)) _
      (still_there-Keeps w (filler i) (filler_name i))
      (then-Keeps (act (closed (filler i))) (fillers_there w (suc i) n)
        (act-Keeps (closed (filler i))) (fillers_there-Keeps w (suc i) n))

-- The fillers from one on, so many.
abbrev pub AllSurvive : ℕ → ℕ → Trace → Type 0
AllSurvive i zero tr = Unit
AllSurvive i (suc n) tr = Survives (filler i) tr × AllSurvive (suc i) n tr

pub AllSurvive-later :
    (i n : ℕ) (e : Event) (tr : Trace) → AllSurvive i n tr → AllSurvive i n (e ∷ tr)
AllSurvive-later i zero e tr h = tt
AllSurvive-later i (suc n) e tr h = (later h.0, AllSurvive-later (suc i) n e tr h.1)

pub fillers_there-AllSurvive :
    (w : World) (i n : ℕ) (before after : Trace)
    → fillers_there w i n before ≡ (returned tt, after)
    → Has order before
    → AllSurvive i n after
unfolding fillers_there
fillers_there-AllSurvive w i zero before after h o = tt
fillers_there-AllSurvive w i (suc n) before after h o =
    returned-elim _ (still_there w (filler i) (filler_name i)) h λ u t₁ e₁ h₁.
      let first = still_there-Survives w (filler i) (filler_name i) before t₁ e₁ o in
      let o₁ =
        order-lasts (still_there w (filler i) (filler_name i)) before (still_there-Keeps w _ _) e₁
          o in
      (
        Survives-lasts (fillers_there w (suc i) n) (closed (filler i) ∷ t₁)
            (fillers_there-Keeps w (suc i) n) h₁ (later first),
        fillers_there-AllSurvive w (suc i) n (closed (filler i) ∷ t₁) after h₁ (there o₁),
      )

pub frame_completed-Survives :
    (w : World) (midframe : Bytes) (before after : Trace)
    → frame_completed w midframe before ≡ (returned tt, after)
    → Has order before
    → Survives conn_w after
unfolding frame_completed ws_recv
frame_completed-Survives w midframe before after h o =
    returned-elim _
      (catch (send w conn_w (drop 7 midframe) >> ws_recv w conn_w (text "PONG") 4000)
        (fail w paths connection_broke))
      h
      λ answer t₁ e₁ h₁.
        returned-elim _
          (check w paths (contains answer (text "PONG") && contains answer (text "midframe"))
            no_pong)
          h₁
          λ u₁ t₂ e₂ h₂.
            let (good, same_trace) =
              check-good w paths
                (contains answer (text "PONG") && contains answer (text "midframe")) no_pong e₂ in
            let e =
              catch-fail w paths connection_broke
                (send w conn_w (drop 7 midframe) >> ws_recv w conn_w (text "PONG") 4000) before
                e₁ in
            returned-elim _ (send w conn_w (drop 7 midframe)) e λ u₃ t₃ e₃ h₃.
              let heard_is = heard-eq conn_w (text "PONG") 4000 _ (w.chunks conn_w t₃) t₃ h₃ in
              let o₃ =
                order-lasts (send w conn_w (drop 7 midframe)) before (send-Keeps w _ _) e₃ o in
              let s₁ : Survives conn_w t₁ =
                subst (Survives conn_w) heard_is (answered o₃ (left_true _ _ good)) in
              let last : closed conn_t ∷ closed conn_w ∷ t₂ ≡ after = cc in
              subst (Survives conn_w) last
                (later (later (subst (Survives conn_w) (sym same_trace) s₁)))
  where
    left_true : (a b : Bool) → (a && b) ≡ true → a ≡ true
    left_true a b h = ground arith
