-- ===== src/Announce/Bot/Effects/Server.antt =====
-- What the answers to the server add to the wire, and the guard of the protected topic.
use orochi.Prelude.{
  leb, ◌+◌, Bool, true, false, not, ◌&&◌, Option, none, some, List, [], ◌∷◌, ◌++◌, ◌≡◌, ◌⊎◌, refl,
  inl, inr, if◌then◌else◌, All, All-append, Has, subst, sym,
}
use orochi.Text.{upper, lower, Text, text, is_empty, member, add_all}
use orochi.Text.Split.{words}
use orochi.Text.Words.{words-strip}
use orochi.Announce.Config.{Config, Project}
use orochi.Announce.Config.Projects.{projects}
use orochi.Announce.World.{World}
use orochi.Announce.Inventory.{Cache}
use orochi.Announce.Bot.{
  protected_words, topic_protected, Bot, topic_change_protected, send_raw, set_topic, topic_line,
  rendered_topic, pump, pump_out, join_line, send_interval,
}
use orochi.Announce.Bot.Caps.{
  cap_end, request_caps, cap_ls, cap_ack, handle_cap, wanted_caps, cap_names,
}
use orochi.Announce.Bot.Ctcp.{ctcp}
use orochi.Announce.Bot.Commands.{command}
use orochi.Announce.Bot.Handle.{
  Message, on_message, parse_kick, parse_privmsg, on_parsed, on_traffic, recover_nick, introduce,
  welcome, authenticate, on_numeric, on_words, handle, untagged,
}
use orochi.Announce.Bot.Effects.{
  Adds, Adds-if, Adds-nothing, Adds-trans, Adds-same, send_raw-Adds, enqueue-Adds,
  channel_say_later-Adds, set_topic-Adds,
}
use orochi.Announce.Bot.Effects.People.{MaySay, ctcp-Adds, command-Adds}

-- What is sent has the form of the bot's status topic: a TOPIC of the bot's channel with the text that
-- `rendered_topic` gives for one of some states of git and of the clock, and for some cache.
abbrev pub IsStatusTopic : Config → List World → Text → Type 0
IsStatusTopic cfg ws l =
    (w : World) × (c : Cache) × Has w ws × (l ≡ topic_line cfg (rendered_topic w c))

-- The first two words of what is sent are TOPIC or FORCETOPIC, in any case, and #root, in any case,
-- with any white space between them. What stands behind a line feed inside it is not looked at.
pub record ChangesRootTopic (l : Text) : Type 0 where
  pub verb : Text
  pub channel : Text
  pub rest : List Text
  pub words_are : words l ≡ verb ∷ channel ∷ rest
  pub is_topic : (upper verb ≡ text "TOPIC") ⊎ (upper verb ≡ text "FORCETOPIC")
  pub is_root : lower channel ≡ text "#root"

-- By its first two words it is no topic change of #root, or it has the form of the status topic.
abbrev pub IsAllowed : Config → List World → Text → Type 0
IsAllowed cfg ws l = (¬ ChangesRootTopic l) ⊎ IsStatusTopic cfg ws l

protected_words_topic :
    (verb channel : Text) (rest : List Text)
    → (upper verb ≡ text "TOPIC") ⊎ (upper verb ≡ text "FORCETOPIC")
    → lower channel ≡ text "#root"
    → protected_words (verb ∷ channel ∷ rest) ≡ true
unfolding protected_words topic_protected
protected_words_topic verb channel rest (inl v) c = rw (v, c)
protected_words_topic verb channel rest (inr v) c = rw (v, c)

-- The guard sees every one.
protected_of_ChangesRootTopic : (l : Text) → ChangesRootTopic l → topic_change_protected l ≡ true
unfolding topic_change_protected
protected_of_ChangesRootTopic l t =
    rw (words-strip, t.words_are)
      (protected_words_topic t.verb t.channel t.rest t.is_topic t.is_root)

pub unprotected :
    (cfg : Config) (ws : List World) (l : Text)
    → topic_change_protected l ≡ false
    → IsAllowed cfg ws l
unprotected cfg ws l h = inl (λ t. cc (protected_of_ChangesRootTopic l t, h))

module _ (cfg : Config) (ws : List World) (w : World) (known : Has w ws) where
  abbrev Safe : Bot → Bot → Type 0
  Safe = Adds (IsAllowed cfg ws) (λ _. Unit {0})

  pub sends : (l : Text) (b : Bot) → Safe b (send_raw w l b)
  sends l b = send_raw-Adds w l b (λ h. unprotected cfg ws l h)

  after_change : (b b₀ b' : Bot) → b₀.wire ≡ b.wire → b₀.outq ≡ b.outq → Safe b₀ b' → Safe b b'
  after_change b b₀ b' e f s = Adds-same b₀ b b' b' (sym e) (sym f) refl refl s

  pub cap_end-Safe : (b : Bot) → Safe b (cap_end w b)
  unfolding cap_end
  cap_end-Safe b =
      Adds-if _ _ b.cap_ended b _ _ (λ _. Adds-nothing b)
        (λ _. after_change b (record b { cap_ended = true }) _ refl refl (sends _ _))

  request_caps-Safe : (want : List Text) (b : Bot) → Safe b (request_caps w want b)
  unfolding request_caps
  request_caps-Safe [] b = cap_end-Safe b
  request_caps-Safe (c ∷ cs) b = sends _ b

  cap_ls-Safe : (more : Bool) (offered : List Text) (b : Bot) → Safe b (cap_ls cfg w more offered b)
  unfolding cap_ls
  cap_ls-Safe more offered b =
      let b' = record b { cap_ls = add_all (cap_names offered) b.cap_ls } in
      after_change b b' _ refl refl (
        Adds-if _ _ more b' _ _ (λ _. Adds-nothing b')
          (λ _. request_caps-Safe (wanted_caps cfg b'.cap_ls) b'))

  cap_ack-Safe : (acked : List Text) (b : Bot) → Safe b (cap_ack cfg w acked b)
  unfolding cap_ack
  cap_ack-Safe acked b =
      let b' = record b { caps = add_all acked b.caps } in
      let b'' = record b' { sasl_active = true } in
      Adds-if _ _ (member (text "sasl") acked && not (is_empty cfg.sasl_user)) b _ _
        (λ _. after_change b b'' _ refl refl (sends _ b''))
        (λ _. after_change b b' _ refl refl (cap_end-Safe b'))

  handle_cap-Safe :
      (line : Text) (parts : List Text) (b : Bot) → Safe b (handle_cap cfg w line parts b)
  unfolding handle_cap
  handle_cap-Safe line parts b =
      search (Adds-if, Adds-nothing, cap_ls-Safe, cap_ack-Safe, cap_end-Safe) depth 12

  may_say : (nick reply : Text) → MaySay (IsAllowed cfg ws) (λ _. Unit {0}) cfg nick reply
  may_say nick reply = record {
    say = λ s. tt;
    say_now = λ s h. unprotected cfg ws _ h;
    note = λ s. tt;
    admin_say = λ _ to s. tt;
    admin_note = λ _ s. tt;
    admin_raw = λ _ l h. unprotected cfg ws l h;
  }

  commands-Safe : (nick reply s : Text) (b : Bot) → Safe b (command cfg w nick reply s b)
  commands-Safe nick reply s b = command-Adds cfg w nick reply (may_say nick reply) s b

  ctcp-Safe : (nick s : Text) (b : Bot) → Safe b (ctcp w nick s b)
  ctcp-Safe nick s b = ctcp-Adds w nick s b (λ _. tt)

  on_message-Safe : (m : Message) (b : Bot) → Safe b (on_message cfg w m b)
  unfolding on_message
  on_message-Safe m b = search (Adds-if, commands-Safe, ctcp-Safe) depth 8

  on_parsed-Safe :
      (kick : Option Text) (m : Option Message) (b : Bot) → Safe b (on_parsed cfg w kick m b)
  unfolding on_parsed
  on_parsed-Safe (some channel) m b = enqueue-Adds (join_line channel) b tt
  on_parsed-Safe none (some m) b = on_message-Safe m b
  on_parsed-Safe none none b = Adds-nothing b

  on_traffic-Safe : (work : Text) (b : Bot) → Safe b (on_traffic cfg w work b)
  unfolding on_traffic
  on_traffic-Safe work b = on_parsed-Safe (parse_kick b.nick work) (parse_privmsg work) b

  recover_nick-Safe : (b : Bot) → Safe b (recover_nick w b)
  unfolding recover_nick
  recover_nick-Safe b =
      let b' = record b { nick = b.nick ++ b'_' ∷ [] } in after_change b b' _ refl refl (sends _ b')

  introduce-Safe : (ps : List Project) (b : Bot) → Safe b (introduce cfg w ps b)
  unfolding introduce
  introduce-Safe [] b = Adds-nothing b
  introduce-Safe (p ∷ ps) b =
      Adds-trans b _ _ (channel_say_later-Adds cfg w _ b (λ _. tt)) (introduce-Safe ps _)

  pub set_topic-Safe : (b : Bot) → Safe b (set_topic cfg w b)
  set_topic-Safe b = set_topic-Adds cfg w b (inr (w, b.inventory, known, refl))

  welcome-Safe : (b : Bot) → Safe b (welcome cfg w b)
  unfolding welcome
  welcome-Safe b =
      let b₀ = record b { registered = true } in
      let joining = send_raw w (join_line cfg.channel) b₀ in
      let told = record joining { intro_done = true } in
      Adds-trans b joining _ (after_change b b₀ joining refl refl (sends _ b₀)) (
        Adds-trans joining _ _
          (Adds-if _ _ joining.intro_done joining _ _ (λ _. Adds-nothing joining)
            (λ _. after_change joining told _ refl refl (introduce-Safe projects told)))
          (set_topic-Safe _))

  authenticate-Safe : (challenge : Text) (b : Bot) → Safe b (authenticate cfg w challenge b)
  unfolding authenticate
  authenticate-Safe challenge b = search (Adds-if, Adds-nothing, sends) depth 8

  -- The state of a chosen pair.
  Safe-if :
      (t : Bool) (b : Bot) (x y : Bot × Bool)
      → Safe b x.0
      → Safe b y.0
      → Safe b (if t then x else y).0
  Safe-if true b x y f g = f
  Safe-if false b x y f g = g

  on_numeric-Safe :
      (work : Text) (joined : Bool) (code : Text) (b : Bot)
      → Safe b (on_numeric cfg w work joined code b).0
  unfolding on_numeric
  on_numeric-Safe work joined code b =
      search (Safe-if, cap_end-Safe, recover_nick-Safe, welcome-Safe, on_traffic-Safe) depth 12

  on_words-Safe :
      (work : Text) (joined : Bool) (parts : List Text) (b : Bot)
      → Safe b (on_words cfg w work joined parts b).0
  unfolding on_words
  on_words-Safe work joined [] b = on_traffic-Safe work b
  on_words-Safe work joined (x ∷ []) b = search (Safe-if, sends, on_traffic-Safe) depth 8
  on_words-Safe work joined (x ∷ y ∷ rest) b =
      search (Safe-if, sends, handle_cap-Safe, authenticate-Safe, on_numeric-Safe) depth 12

  pub handle-Safe : (line : Text) (joined : Bool) (b : Bot) → Safe b (handle cfg w line joined b).0
  unfolding handle
  handle-Safe line joined b = on_words-Safe (untagged line) joined (words (untagged line)) b

wire-if :
    (P : Text → Type 0) (t : Bool) (x y : Bot)
    → All P x.wire
    → All P y.wire
    → All P (if t then x else y).wire
wire-if P true x y f g = f
wire-if P false x y f g = g

pump-IsAllowed :
    (cfg : Config) (ws : List World) (w : World) (known : Has w ws) (ls : List Text) (b : Bot)
    → All (IsAllowed cfg ws) b.wire
    → All (IsAllowed cfg ws) (pump w ls b).wire
unfolding pump
pump-IsAllowed cfg ws w known [] b h = h
pump-IsAllowed cfg ws w known (l ∷ ls) b h =
    let base = record b { outq = ls } in
    let s = sends cfg ws w known l base in
    let sent : All (IsAllowed cfg ws) (send_raw w l base).wire =
      subst (All (IsAllowed cfg ws)) (sym s.wire_is)
        (All-append (IsAllowed cfg ws) b.wire s.sent h s.sent_ok) in
    wire-if (IsAllowed cfg ws) (leb (b.last_send + send_interval) w.now) _ b sent h

-- What `pump_out` sends from the queue is allowed in the same sense.
pub pump_out-IsAllowed :
    (cfg : Config) (ws : List World) (w : World) (b : Bot)
    → Has w ws
    → All (IsAllowed cfg ws) b.wire
    → All (IsAllowed cfg ws) (pump_out w b).wire
unfolding pump_out
pump_out-IsAllowed cfg ws w b known h = pump-IsAllowed cfg ws w known b.outq b h
