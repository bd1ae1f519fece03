-- ===== src/Announce/Bot/Commits/Safe.antt =====
-- What a poll adds to the wire.
use orochi.Prelude.{Has, ◌-◌, Bool, true, false, none, some, List, [], ◌∷◌, refl, length, ltb, drop}
use orochi.Text.{Text, is_empty, strip}
use orochi.Text.Number.{parse_int}
use orochi.Announce.Config.{Config, Project}
use orochi.Announce.World.{World}
use orochi.Announce.Bot.{Bot, channel_notice, announce}
use orochi.Announce.Bot.Commits.{counted, tests_delta, commit_lines}
use orochi.Announce.Bot.Commits.Poll.{announce_revs, accept_head, report, poll_project}
use orochi.Announce.Bot.Effects.{
  Adds, Adds-if, Adds-nothing, Adds-trans, Adds-same, enqueue-Adds, announce-Adds,
}
use orochi.Announce.Bot.Effects.Server.{IsAllowed, unprotected, set_topic-Safe}

module _ (cfg : Config) (ws : List World) (w : World) (known : Has w ws) where
  abbrev Safe : Bot → Bot → Type 0
  Safe = Adds (IsAllowed cfg ws) (λ _. Unit {0})

  pub announce-Safe : (ls : List Text) (b : Bot) → Safe b (announce cfg w cfg.channel ls b)
  announce-Safe ls b =
      announce-Adds cfg w cfg.channel ls b (λ s h. unprotected cfg ws _ h) (λ s. tt)

  channel_notice-Safe : (body : Text) (b : Bot) → Safe b (channel_notice cfg body b)
  unfolding channel_notice
  channel_notice-Safe body b =
      Adds-if _ _ (is_empty (strip body)) b _ _ (λ _. Adds-nothing b) (λ _. enqueue-Adds _ b tt)

  commit_lines-Safe :
      (p : Project) (rev tc : Text) (with_delta : Bool) (b : Bot)
      → Safe b (commit_lines w p rev tc with_delta b).1
  unfolding commit_lines tests_delta
  commit_lines-Safe p rev tc false b = Adds-nothing b
  commit_lines-Safe p rev tc true b = elim (parse_int tc) as (λ o. Safe b (counted p b o).1) [
    | none ↦ Adds-nothing b
    | some n ↦ Adds-same b b b _ refl refl refl refl (Adds-nothing b)
  ]

  announce_revs-Safe :
      (p : Project) (tc : Text) (revs : List Text) (b : Bot)
      → Safe b (announce_revs cfg w p tc revs b)
  unfolding announce_revs
  announce_revs-Safe p tc [] b = Adds-nothing b
  announce_revs-Safe p tc (rev ∷ []) b =
      Adds-trans b _ _ (commit_lines-Safe p rev tc true b) (announce-Safe _ _)
  announce_revs-Safe p tc (rev ∷ r ∷ rs) b =
      Adds-trans b _ _ (commit_lines-Safe p rev tc false b)
        (Adds-trans _ _ _ (announce-Safe _ _) (announce_revs-Safe p tc (r ∷ rs) _))

  report-Safe : (p : Project) (revs : List Text) (b : Bot) → Safe b (report cfg w p revs b)
  unfolding report
  report-Safe p revs b =
      Adds-trans b _ _
        (Adds-if _ _ (ltb 0 (length revs - 5)) b _ _ (λ _. channel_notice-Safe _ b)
          (λ _. Adds-nothing b))
        (Adds-trans _ _ _ (announce_revs-Safe p _ (drop (length revs - 5) revs) _)
          (set_topic-Safe cfg ws w known _))

  reported-Safe :
      (p : Project) (cur : Text) (revs : List Text) (b : Bot)
      → Safe b (report cfg w p revs (accept_head p cur b))
  unfolding accept_head
  reported-Safe p cur revs b =
      Adds-same (accept_head p cur b) b _ _ refl refl refl refl
        (report-Safe p revs (accept_head p cur b))

  pub poll_project-Safe : (p : Project) (b : Bot) → Safe b (poll_project cfg w p b)
  unfolding poll_project
  poll_project-Safe p b = search (Adds-if, Adds-nothing, reported-Safe) depth 12
