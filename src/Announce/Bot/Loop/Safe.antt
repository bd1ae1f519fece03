-- ===== src/Announce/Bot/Loop/Safe.antt =====
-- What whole connections put on the wire, payload by payload: the guard of the protected topic.
use orochi.Prelude.{
  ℕ, zero, suc, ◌/◌, Bool, true, false, Option, none, some, List, [], ◌∷◌, ◌++◌, refl, sym, inl,
  inr, Bool-cases, Option-cases, if◌then◌else◌, All, Has, here, there, All-append, subst, length,
}
use orochi.Text.{Text, text, is_empty, show}
use orochi.Text.Split.{cut}
use orochi.Announce.Config.{Config, Project}
use orochi.Announce.Config.Projects.{projects}
use orochi.Announce.World.{World}
use orochi.Announce.Bot.{Bot, send_raw, set_topic, pump_out}
use orochi.Announce.Bot.Lifecycle.{connect, register, reset}
use orochi.Announce.Bot.Loop.{
  Bytes, LoopState, Outcome, next, raised, crlf, handle_line, handle_lines, handle_buffer,
  receive_data, keepalive, past, cap_timeout, announce_stats, heartbeat, poll_projects, poll_heads,
  timers, round, rounds, loop_start, attempt,
}
use orochi.Announce.Bot.Commits.Safe.{announce-Safe, poll_project-Safe}
use orochi.Announce.Bot.Effects.{Adds, Adds-if, Adds-nothing, Adds-trans, Adds-same}
use orochi.Announce.Bot.Effects.Server.{
  IsAllowed, sends, cap_end-Safe, handle-Safe, set_topic-Safe, pump_out-IsAllowed,
}

-- The states that the rounds of a connection see.
abbrev pub worlds : List (World × Option Bytes) → List World
worlds [] = []
worlds ((w, input) ∷ rs) = w ∷ worlds rs

module _ (cfg : Config) (ws : List World) where
  -- All that is on the wire is allowed.
  record AllAllowed (b : Bot) : Type 0 where
    wire_ok : All (IsAllowed cfg ws) b.wire

  abbrev Safe : Bot → Bot → Type 0
  Safe = Adds (IsAllowed cfg ws) (λ _. Unit {0})

  allowed_after : (b b' : Bot) → Safe b b' → AllAllowed b → AllAllowed b'
  allowed_after b b' s h = record {
    wire_ok =
        subst (All (IsAllowed cfg ws)) (sym s.wire_is)
          (All-append (IsAllowed cfg ws) b.wire s.sent h.wire_ok s.sent_ok);
  }

  module _ (w : World) (known : Has w ws) where
    handle_lines-AllAllowed :
        (decode : Bytes → Text) (fuel : ℕ) (st : LoopState)
        → AllAllowed st.bot
        → AllAllowed (handle_lines decode cfg w fuel st).bot
    unfolding handle_lines handle_line
    handle_lines-AllAllowed decode zero st h = h
    handle_lines-AllAllowed decode (suc fuel) st h = elim (Option-cases (cut crlf st.buf)) [
      | inl e ↦ rw (e, handle_lines) h
      | inr ((raw, rest), e) ↦
          rw (e, handle_lines)
            (handle_lines-AllAllowed decode fuel (handle_line decode cfg w raw rest st)
              (allowed_after st.bot _ (handle-Safe cfg ws w known (decode raw) st.joined st.bot) h))
    ]

    receive_data-AllAllowed :
        (decode : Bytes → Text) (d : Bytes) (st : LoopState)
        → AllAllowed st.bot
        → AllAllowed (receive_data decode cfg w d st).bot
    unfolding receive_data handle_buffer
    receive_data-AllAllowed decode d st h =
        handle_lines-AllAllowed decode (length (st.buf ++ d)) _ (record { wire_ok = h.wire_ok })

    keepalive-Safe : (b : Bot) → Safe b (keepalive w b)
    unfolding keepalive
    keepalive-Safe b =
        let b' = record b { last_keepalive = w.now } in
        let probed = send_raw w (text "PING :ka" ++ show (w.now / 1000)) b' in
        let said : Safe b probed =
          Adds-same b' b probed probed refl refl refl refl (sends cfg ws w known _ b') in
        search (Adds-if, Adds-nothing) depth 8

    cap_timeout-Safe : (b : Bot) → Safe b (cap_timeout w b)
    unfolding cap_timeout
    cap_timeout-Safe b = search (Adds-if, Adds-nothing, cap_end-Safe cfg ws w known) depth 8

    announce_stats-Safe : (ps : List Project) (b : Bot) → Safe b (announce_stats cfg w ps b)
    unfolding announce_stats
    announce_stats-Safe [] b = Adds-nothing b
    announce_stats-Safe (p ∷ ps) b =
        Adds-trans b _ _ (announce-Safe cfg ws w known _ b) (announce_stats-Safe ps _)

    heartbeat-Safe : (joined : Bool) (b : Bot) → Safe b (heartbeat cfg w joined b)
    unfolding heartbeat
    heartbeat-Safe joined b =
        let b' = record b { last_beat = w.now } in
        let told = set_topic cfg w (announce_stats cfg w projects b') in
        let said : Safe b told = Adds-same b' b told told refl refl refl refl (
          Adds-trans b' _ told (announce_stats-Safe projects b')
            (set_topic-Safe cfg ws w known _)) in
        search (Adds-if, Adds-nothing) depth 8

    poll_projects-Safe : (ps : List Project) (b : Bot) → Safe b (poll_projects cfg w ps b)
    unfolding poll_projects
    poll_projects-Safe [] b = Adds-nothing b
    poll_projects-Safe (p ∷ ps) b =
        Adds-trans b _ _ (poll_project-Safe cfg ws w known p b) (poll_projects-Safe ps _)

    poll_heads-Safe : (joined : Bool) (b : Bot) → Safe b (poll_heads cfg w joined b)
    unfolding poll_heads
    poll_heads-Safe joined b =
        let b' = record b { last_poll = w.now } in
        let told = set_topic cfg w (poll_projects cfg w projects b') in
        let said : Safe b told = Adds-same b' b told told refl refl refl refl (
          Adds-trans b' _ told (poll_projects-Safe projects b')
            (set_topic-Safe cfg ws w known _)) in
        search (Adds-if, Adds-nothing) depth 8

    register-Safe : (b : Bot) → Safe b (register cfg w b)
    unfolding register
    register-Safe b =
        let b₁ = send_raw w (text "CAP LS 302") b in
        let b₂ =
          (if is_empty cfg.password then b₁ else send_raw w (text "PASS " ++ cfg.password) b₁) in
        let b₃ = send_raw w (text "NICK " ++ b₂.nick) b₂ in
        Adds-trans b b₁ _ (sends cfg ws w known _ b) (
          Adds-trans b₁ b₂ _
            (Adds-if _ _ (is_empty cfg.password) b₁ _ _ (λ _. Adds-nothing b₁)
              (λ _. sends cfg ws w known _ b₁))
            (Adds-trans b₂ b₃ _ (sends cfg ws w known _ b₂) (sends cfg ws w known _ b₃)))

  abbrev OutcomeAllowed : Outcome → Type 0
  OutcomeAllowed (next st) = AllAllowed st.bot
  OutcomeAllowed (raised e b) = AllAllowed b

  timers-Allowed :
      (w : World) (known : Has w ws) (st : LoopState)
      → AllAllowed st.bot
      → OutcomeAllowed (timers cfg w st)
  unfolding timers
  timers-Allowed w known st h =
      let pumped = pump_out w st.bot in
      let p : AllAllowed pumped = record {
        wire_ok = pump_out-IsAllowed cfg ws w st.bot known h.wire_ok;
      } in
      let k = allowed_after pumped _ (keepalive-Safe w known pumped) p in
      let c = allowed_after _ _ (cap_timeout-Safe w known (keepalive w pumped)) k in
      let t =
        allowed_after _ _ (heartbeat-Safe w known st.joined (cap_timeout w (keepalive w pumped)))
          c in
      let r = allowed_after _ _ (poll_heads-Safe w known st.joined _) t in
      elim (Bool-cases (past w pumped.last_rx 240000)) [ inl e ↦ rw e p | inr e ↦ rw e r ]

  round-Allowed :
      (decode : Bytes → Text) (w : World) (known : Has w ws) (input : Option Bytes) (st : LoopState)
      → AllAllowed st.bot
      → OutcomeAllowed (round decode cfg w input st)
  unfolding round
  round-Allowed decode w known none st h = timers-Allowed w known st h
  round-Allowed decode w known (some []) st h = h
  round-Allowed decode w known (some (c ∷ d)) st h =
      timers-Allowed w known _ (receive_data-AllAllowed w known decode (c ∷ d) st h)

  rounds-AllAllowed :
      (decode : Bytes → Text) (rs : List (World × Option Bytes)) (st : LoopState)
      → All (λ w. Has w ws) (worlds rs)
      → AllAllowed st.bot
      → AllAllowed (rounds decode cfg rs st)
  unfolding rounds
  rounds-AllAllowed decode [] st m h = h
  rounds-AllAllowed decode ((w, input) ∷ rs) st m h =
      elim (round decode cfg w input st)
          as (λ o.
            OutcomeAllowed o
            → AllAllowed (elim o [ next st' ↦ rounds decode cfg rs st' | raised e b ↦ b ])) [
              | next st' ↦ λ k. rounds-AllAllowed decode rs st' m.1 k
              | raised e b ↦ λ k. k
            ]
        (round-Allowed decode w m.0 input st h)

  -- The connection is opened, or the attempt ends.
  opened_or_not :
      (decode : Bytes → Text) (w : World) (rs : List (World × Option Bytes)) (t : Bool) (x y : Bot)
      → AllAllowed (rounds decode cfg rs (loop_start w x))
      → AllAllowed y
      → AllAllowed (
          let r : Bot × Bool = (if t then (x, true) else (y, false)) in
          if r.1 then rounds decode cfg rs (loop_start w r.0) else r.0)
  opened_or_not decode w rs true x y h k = h
  opened_or_not decode w rs false x y h k = k

  attempt-AllAllowed :
      (decode : Bytes → Text) (w : World) (rs : List (World × Option Bytes)) (b : Bot)
      → Has w ws
      → All (λ w. Has w ws) (worlds rs)
      → AllAllowed b
      → AllAllowed (attempt decode cfg w rs b)
  unfolding attempt connect reset
  attempt-AllAllowed decode w rs b known m h =
      let opened = record (reset cfg w b) { sock = true; wire = [] } in
      let r = allowed_after opened _ (register-Safe w known opened) (record { wire_ok = tt }) in
      opened_or_not decode w rs w.connects (register cfg w opened) (reset cfg w b)
        (rounds-AllAllowed decode rs (loop_start w (register cfg w opened)) m
          (record { wire_ok = r.wire_ok }))
        (record { wire_ok = h.wire_ok })

All-Has_self : (ws vs : List World) → ((w : World) → Has w ws → Has w vs) → All (λ w. Has w vs) ws
All-Has_self [] vs k = tt
All-Has_self (w ∷ ws) vs k = (k w here, All-Has_self ws vs (λ x m. k x (there m)))

-- Each call of `sendall` in a whole connection, from the registration through any number of rounds,
-- has a payload whose first two words are not TOPIC or FORCETOPIC and #root, each in any case, or a
-- payload of the form of the status topic: a TOPIC of the bot's channel with the text that
-- `rendered_topic` gives for git and the clock as the connection or one of its rounds sees them, and
-- for some cache. This is so whatever bytes the server sends, whatever git and the clock say, and
-- whatever the administrator commands. It is said of whole payloads: the token of a PING keeps a line
-- feed inside it, and of a payload of several lines only the first two words are looked at. If the
-- connection cannot be opened, the wire keeps the payloads that were on it, which are allowed by
-- hypothesis.
pub attempt-IsAllowed :
    (decode : Bytes → Text) (cfg : Config) (w : World) (rs : List (World × Option Bytes)) (b : Bot)
    → All (IsAllowed cfg (w ∷ worlds rs)) b.wire
    → All (IsAllowed cfg (w ∷ worlds rs)) (attempt decode cfg w rs b).wire
attempt-IsAllowed decode cfg w rs b h =
    (attempt-AllAllowed cfg (w ∷ worlds rs) decode w rs b here
      (All-Has_self (worlds rs) (w ∷ worlds rs) (λ x m. there m)) (record { wire_ok = h })).wire_ok
