-- ===== src/Announce/Bot/Effects/People.antt =====
-- What the answers to people add to the wire and to the queue.
use mathlib.Core.Bool.{true≢false}
use orochi.Prelude.{true, false, Option, none, some, List, [], ◌∷◌, ◌≡◌, refl, ◌==◌}
use orochi.Text.{Text, text, lower, strip}
use orochi.Text.Split.{partition}
use orochi.Announce.Config.{Config, Project}
use orochi.Announce.Config.Projects.{select_projects}
use orochi.Announce.World.{World}
use orochi.Announce.Bot.{Bot, msg, announce, topic_change_protected, privmsg_line, notice_line}
use orochi.Announce.Bot.Ctcp.{ctcp}
use orochi.Announce.Bot.ProjectCommands.{project_command, for_projects, with_projects}
use orochi.Announce.Bot.Commands.{admin_command, is_admin, plain_command, bang_command, command}
use orochi.Announce.Bot.Effects.{
  Adds, Adds-if, Adds-nothing, Adds-trans, send_raw-Adds, msg-Adds, notice-Adds, announce-Adds,
}

-- What may be said to `reply` on behalf of `nick`, and more if `nick` is the administrator.
pub record MaySay (P Q : Text → Type 0) (cfg : Config) (nick reply : Text) : Type 0 where
  pub say : (s : Text) → Q (privmsg_line reply s)
  pub say_now :
      (s : Text) → topic_change_protected (privmsg_line reply s) ≡ false → P (privmsg_line reply s)
  pub note : (s : Text) → Q (notice_line reply s)
  pub admin_say : is_admin cfg nick ≡ true → (to s : Text) → Q (privmsg_line to s)
  pub admin_note : is_admin cfg nick ≡ true → (s : Text) → Q (notice_line nick s)
  pub admin_raw : is_admin cfg nick ≡ true → (l : Text) → topic_change_protected l ≡ false → P l

module _ {P Q : Text → Type 0} where
  pub ctcp-Adds :
      (w : World) (nick body : Text) (b : Bot)
      → ((s : Text) → Q (notice_line nick s))
      → Adds P Q b (ctcp w nick body b)
  unfolding ctcp
  ctcp-Adds w nick body b h = search (Adds-if, Adds-nothing, notice-Adds) depth 16

  module _ (cfg : Config) (w : World) (nick reply : Text) (may : MaySay P Q cfg nick reply) where
    replies : (s : Text) (b : Bot) → Adds P Q b (msg reply s b)
    replies s b = msg-Adds reply s b (may.say s)

    announces : (ls : List Text) (b : Bot) → Adds P Q b (announce cfg w reply ls b)
    announces ls b = announce-Adds cfg w reply ls b may.say_now may.say

    project_command-Adds :
        (cmd : Text) (p : Project) (b : Bot) → Adds P Q b (project_command cfg w cmd reply p b)
    unfolding project_command
    project_command-Adds cmd p b = search (Adds-if, announces, replies) depth 20

    for_projects-Adds :
        (cmd : Text) (ps : List Project) (b : Bot) → Adds P Q b (for_projects cfg w cmd reply ps b)
    unfolding for_projects
    for_projects-Adds cmd [] b = Adds-nothing b
    for_projects-Adds cmd (p ∷ ps) b =
        Adds-trans b _ _ (project_command-Adds cmd p b) (for_projects-Adds cmd ps _)

    with_projects-Adds :
        (cmd arg : Text) (o : Option (List Project)) (b : Bot)
        → Adds P Q b (with_projects cfg w cmd reply arg o b)
    unfolding with_projects
    with_projects-Adds cmd arg none b = notice-Adds reply _ b (may.note _)
    with_projects-Adds cmd arg (some ps) b = for_projects-Adds cmd ps b

    admin_command-Adds :
        (cmd arg : Text) (b : Bot)
        → is_admin cfg nick ≡ true
        → Adds P Q b (admin_command cfg w nick cmd arg b)
    unfolding admin_command
    admin_command-Adds cmd arg b h =
        search
          (
            Adds-if, Adds-nothing, msg-Adds, notice-Adds, send_raw-Adds, may.admin_say,
            may.admin_note, may.admin_raw,
          )
          depth 20

    plain_command-Adds :
        (cmd arg : Text) (b : Bot) → Adds P Q b (plain_command cfg w nick reply cmd arg b)
    unfolding plain_command
    plain_command-Adds cmd arg b =
        search (Adds-if, Adds-nothing, replies, admin_command-Adds) depth 20

    bang_command-Adds :
        (vr : Text × Text) (b : Bot) → Adds P Q b (bang_command cfg w nick reply vr b)
    unfolding bang_command
    bang_command-Adds (verb, rest) b =
        Adds-if P Q _ b _ _
          (λ _. with_projects-Adds (lower verb) (strip rest) (select_projects (strip rest)) b)
          (λ _. plain_command-Adds (lower verb) (strip rest) b)

    pub command-Adds : (s : Text) (b : Bot) → Adds P Q b (command cfg w nick reply s b)
    unfolding command
    command-Adds [] b = Adds-nothing b
    command-Adds (c ∷ s) b =
        Adds-if P Q (c == b'!') b _ _ (λ _. bang_command-Adds (partition (text " ") s) b)
          (λ _. Adds-nothing b)

-- The line is a PRIVMSG or a NOTICE to the target.
pub data Addressed (to l : Text) : Type 0 where
  says : (body : Text) → l ≡ privmsg_line to body → Addressed to l
  notes : (body : Text) → l ≡ notice_line to body → Addressed to l

-- Whatever somebody who is not the administrator asks for, the lines that the answer puts on the
-- wire or in the queue are PRIVMSG and NOTICE lines to the place of the reply, and what was on the
-- wire and in the queue stays in front of them.
pub command-Addressed :
    (cfg : Config) (w : World) (nick reply s : Text) (b : Bot)
    → is_admin cfg nick ≡ false
    → Adds (Addressed reply) (Addressed reply) b (command cfg w nick reply s b)
command-Addressed cfg w nick reply s b no_admin =
    command-Adds cfg w nick reply
      (record {
        say = λ t. says t refl;
        say_now = λ t _. says t refl;
        note = λ t. notes t refl;
        admin_say = λ h. absurd (true≢false (h' h));
        admin_note = λ h. absurd (true≢false (h' h));
        admin_raw = λ h. absurd (true≢false (h' h));
      })
      s b
  where
    h' : is_admin cfg nick ≡ true → true ≡ false
    h' h = cc
