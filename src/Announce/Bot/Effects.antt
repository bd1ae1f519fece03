-- ===== src/Announce/Bot/Effects.antt =====
-- What an operation of the bot adds to the wire and to the queue: lines of which a given predicate
-- holds, behind what was there. One lemma for each way to speak.
pub mod People
pub mod Server
use orochi.Prelude.{
  Bool, true, false, not, List, [], ◌∷◌, ◌++◌, ◌≡◌, refl, sym, ap, ◌∙◌, ◌⊎◌, inl, inr, arith, subst,
  if◌then◌else◌, Bool-cases, All, All-append, append-nil, append_assoc,
}
use orochi.Text.{Text, is_empty, same, strip}
use orochi.Text.Split.{clean_lines}
use orochi.Text.Equal.{same_iff}
use orochi.Announce.Config.{Config}
use orochi.Announce.World.{World}
use orochi.Announce.Bot.{
  Bot, topic_change_protected, transmit, send_raw, send_trusted, enqueue, privmsg_line, notice_line,
  msg, notice, cap_text, channel_say, say_all, msg_all, announce_cleaned, announce, topic_line,
  rendered_topic, set_topic,
}

-- `b'` has `sent` behind the wire of `b`, and `queued` behind its queue.
pub record Adds (P Q : Text → Type 0) (b b' : Bot) : Type 0 where
  pub sent : List Text
  pub queued : List Text
  pub wire_is : b'.wire ≡ b.wire ++ sent
  pub outq_is : b'.outq ≡ b.outq ++ queued
  pub sent_ok : All P sent
  pub queued_ok : All Q queued

-- Splits on a test under a goal about the chosen state.
pub Adds-if :
    (P Q : Text → Type 0) (t : Bool) (b x y : Bot)
    → (t ≡ true → Adds P Q b x)
    → (t ≡ false → Adds P Q b y)
    → Adds P Q b (if t then x else y)
Adds-if P Q true b x y f g = f refl
Adds-if P Q false b x y f g = g refl

module _ {P Q : Text → Type 0} where
  pub Adds-nothing : (b : Bot) → Adds P Q b b
  Adds-nothing b = record {
    sent = [];
    queued = [];
    wire_is = sym (append-nil b.wire);
    outq_is = sym (append-nil b.outq);
    sent_ok = tt;
    queued_ok = tt;
  }

  -- Only the wire and the queue count.
  pub Adds-same :
      (a a' b b' : Bot)
      → a'.wire ≡ a.wire
      → a'.outq ≡ a.outq
      → b'.wire ≡ b.wire
      → b'.outq ≡ b.outq
      → Adds P Q a b
      → Adds P Q a' b'
  Adds-same a a' b b' wa qa wb qb f = record {
    sent = f.sent;
    queued = f.queued;
    wire_is = wb ∙ f.wire_is ∙ ap (λ l. l ++ f.sent) (sym wa);
    outq_is = qb ∙ f.outq_is ∙ ap (λ l. l ++ f.queued) (sym qa);
    sent_ok = f.sent_ok;
    queued_ok = f.queued_ok;
  }

  pub Adds-trans : (a b c : Bot) → Adds P Q a b → Adds P Q b c → Adds P Q a c
  Adds-trans a b c f g = record {
    sent = f.sent ++ g.sent;
    queued = f.queued ++ g.queued;
    wire_is = g.wire_is ∙ rw f.wire_is (append_assoc a.wire f.sent g.sent);
    outq_is = g.outq_is ∙ rw f.outq_is (append_assoc a.outq f.queued g.queued);
    sent_ok = All-append P f.sent g.sent f.sent_ok g.sent_ok;
    queued_ok = All-append Q f.queued g.queued f.queued_ok g.queued_ok;
  }

  pub transmit-Adds : (w : World) (l : Text) (b : Bot) → P l → Adds P Q b (transmit w l b)
  unfolding transmit
  transmit-Adds w l b h =
      Adds-if P Q w.link_up b _ _
        (λ _. record {
          sent = l ∷ [];
          queued = [];
          wire_is = refl;
          outq_is = sym (append-nil b.outq);
          sent_ok = (h, tt);
          queued_ok = tt;
        })
        (λ _. Adds-nothing b)

  -- An untrusted line reaches the wire only if it changes no protected topic.
  pub send_raw-Adds :
      (w : World) (l : Text) (b : Bot)
      → (topic_change_protected l ≡ false → P l)
      → Adds P Q b (send_raw w l b)
  unfolding send_raw
  send_raw-Adds w l b h =
      Adds-if P Q (not b.sock) b _ _ (λ _. Adds-nothing b)
        (λ _.
          Adds-if P Q (topic_change_protected l) b _ _ (λ _. Adds-nothing b)
            (λ free. transmit-Adds w l b (h free)))

  pub send_trusted-Adds : (w : World) (l : Text) (b : Bot) → P l → Adds P Q b (send_trusted w l b)
  unfolding send_trusted
  send_trusted-Adds w l b h =
      Adds-if P Q (not b.sock) b _ _ (λ _. Adds-nothing b) (λ _. transmit-Adds w l b h)

  pub enqueue-Adds : (l : Text) (b : Bot) → Q l → Adds P Q b (enqueue l b)
  unfolding enqueue
  enqueue-Adds l b h = record {
    sent = [];
    queued = l ∷ [];
    wire_is = sym (append-nil b.wire);
    outq_is = refl;
    sent_ok = tt;
    queued_ok = (h, tt);
  }

  pub msg-Adds : (to body : Text) (b : Bot) → Q (privmsg_line to body) → Adds P Q b (msg to body b)
  unfolding msg
  msg-Adds to body b h =
      Adds-if P Q (is_empty (strip body)) b _ _ (λ _. Adds-nothing b) (λ _. enqueue-Adds _ b h)

  pub notice-Adds :
      (to body : Text) (b : Bot) → Q (notice_line to body) → Adds P Q b (notice to body b)
  unfolding notice
  notice-Adds to body b h =
      Adds-if P Q (is_empty (strip body)) b _ _ (λ _. Adds-nothing b) (λ _. enqueue-Adds _ b h)

  module _ (cfg : Config) (w : World) where
    pub channel_say_later-Adds :
        (body : Text) (b : Bot)
        → ((s : Text) → Q (privmsg_line cfg.channel s))
        → Adds P Q b (channel_say cfg w false body b)
    unfolding channel_say
    channel_say_later-Adds body b h =
        Adds-if P Q (is_empty (strip body)) b _ _ (λ _. Adds-nothing b)
          (λ _. enqueue-Adds _ b (h (cap_text (strip body))))

    pub channel_say_now-Adds :
        (body : Text) (b : Bot)
        → ((s : Text)
            → topic_change_protected (privmsg_line cfg.channel s) ≡ false
            → P (privmsg_line cfg.channel s))
        → Adds P Q b (channel_say cfg w true body b)
    unfolding channel_say
    channel_say_now-Adds body b h =
        let sent_bot = send_raw w (privmsg_line cfg.channel (cap_text (strip body))) b in
        let sent : Adds P Q b sent_bot = send_raw-Adds w _ b (h (cap_text (strip body))) in
        Adds-if P Q (is_empty (strip body)) b _ _ (λ _. Adds-nothing b)
          (λ _. Adds-same b b sent_bot _ refl refl refl refl sent)

    say_all-Adds :
        (ls : List Text) (b : Bot)
        → ((s : Text) → Q (privmsg_line cfg.channel s))
        → Adds P Q b (say_all cfg w ls b)
    unfolding say_all
    say_all-Adds [] b h = Adds-nothing b
    say_all-Adds (l ∷ ls) b h =
        Adds-trans b _ _ (channel_say_later-Adds l b h) (say_all-Adds ls _ h)

    msg_all-Adds :
        (to : Text) (ls : List Text) (b : Bot)
        → ((s : Text) → Q (privmsg_line to s))
        → Adds P Q b (msg_all to ls b)
    unfolding msg_all
    msg_all-Adds to [] b h = Adds-nothing b
    msg_all-Adds to (l ∷ ls) b h = Adds-trans b _ _ (msg-Adds to l b (h l)) (msg_all-Adds to ls _ h)

    announce_cleaned-Adds :
        (to : Text) (ls : List Text) (b : Bot)
        → ((s : Text) → topic_change_protected (privmsg_line to s) ≡ false → P (privmsg_line to s))
        → ((s : Text) → Q (privmsg_line to s))
        → Adds P Q b (announce_cleaned cfg w to ls b)
    unfolding announce_cleaned
    announce_cleaned-Adds to [] b f h = Adds-nothing b
    announce_cleaned-Adds to (l ∷ ls) b f h =
        Adds-if P Q (same to cfg.channel) b _ _
          (λ e.
            let c : to ≡ cfg.channel = (same_iff to cfg.channel).0 e in
            Adds-trans b _ _
              (channel_say_now-Adds l b (
                subst
                  (λ t.
                    (s : Text)
                    → topic_change_protected (privmsg_line t s) ≡ false
                    → P (privmsg_line t s))
                  c f))
              (say_all-Adds ls _ (subst (λ t. (s : Text) → Q (privmsg_line t s)) c h)))
          (λ _. msg_all-Adds to (l ∷ ls) b h)

    pub announce-Adds :
        (to : Text) (ls : List Text) (b : Bot)
        → ((s : Text) → topic_change_protected (privmsg_line to s) ≡ false → P (privmsg_line to s))
        → ((s : Text) → Q (privmsg_line to s))
        → Adds P Q b (announce cfg w to ls b)
    unfolding announce
    announce-Adds to ls b f h = announce_cleaned-Adds to (clean_lines ls) b f h

    pub set_topic-Adds :
        (b : Bot)
        → P (topic_line cfg (rendered_topic w b.inventory))
        → Adds P Q b (set_topic cfg w b)
    unfolding set_topic
    set_topic-Adds b h =
        let topic = rendered_topic w b.inventory in
        let sent_bot = send_trusted w (topic_line cfg topic) b in
        let sent : Adds P Q b sent_bot = send_trusted-Adds w (topic_line cfg topic) b h in
        Adds-if P Q (same topic b.last_topic) b _ _ (λ _. Adds-nothing b)
          (λ _. Adds-same b b sent_bot _ refl refl refl refl sent)
