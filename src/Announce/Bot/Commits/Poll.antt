-- ===== src/Announce/Bot/Commits/Poll.antt =====
-- `poll_project` of tools/announce_bot.py. A project always has its entry in `last_commit`.
use orochi.Prelude.{
  ◌-◌, true, false, not, Option, none, some, List, [], ◌∷◌, ltb, if◌then◌else◌, length, drop,
}
use orochi.Text.{Text, text, cat, is_empty, same, show}
use orochi.Text.Split.{words}
use orochi.Announce.Config.{Config, Project}
use orochi.Text.Dict.{put, get?}
use orochi.Announce.World.{World, git}
use orochi.Announce.Inventory.{
  Cache, Freshness, pending, refreshing, measured, freshness, get, request,
}
use orochi.Announce.Bot.{Bot, channel_notice, announce, set_topic}
use orochi.Announce.Bot.Commits.{commit_lines}

abbrev pub commit_or_none : Option Text → Text
commit_or_none none = []
commit_or_none (some c) = c

-- `self.last_commit[p.key]`
unfoldable pub seen : Project → Bot → Text
unfolding get?
seen p b = commit_or_none (get? p.key b.last_commit)

abbrev pub head_of : World → Project → Text
head_of w p = git w p (text "rev-parse" ∷ text "HEAD" ∷ [])

abbrev or_tip : Text → List Text → List Text
or_tip cur [] = cur ∷ []
or_tip cur (r ∷ rs) = r ∷ rs

-- The new commits, oldest first; the tip where the history has diverged.
unfoldable pub new_revs : World → Project → Text → Text → List Text
unfolding words git
new_revs w p prev cur =
    or_tip cur (
      words (git w p (text "rev-list" ∷ text "--reverse" ∷ cat (prev ∷ text ".." ∷ cur ∷ []) ∷ [])))

abbrev count_text : Cache → Project → Freshness → Text
count_text c p pending = text "updating"
count_text c p refreshing = text "updating"
count_text c p (measured dirty age) = (get c p.key).test_blocks

-- The cards of the commits, the last one with the change of the test count.
unfoldable pub announce_revs : Config → World → Project → Text → List Text → Bot → Bot
announce_revs cfg w p tc [] b = b
announce_revs cfg w p tc (rev ∷ []) b =
    let (lines, b') = commit_lines w p rev tc true b in announce cfg w cfg.channel lines b'
announce_revs cfg w p tc (rev ∷ r ∷ rs) b =
    let (lines, b') = commit_lines w p rev tc false b in
    announce_revs cfg w p tc (r ∷ rs) (announce cfg w cfg.channel lines b')

-- The part behind the guards: the state with the new commit, and what is said of it.
unfoldable pub accept_head : Project → Text → Bot → Bot
accept_head p cur b = record b {
  last_commit = put p.key cur b.last_commit;
  inventory = request p.key b.inventory;
}

unfoldable pub report : Config → World → Project → List Text → Bot → Bot
report cfg w p revs b =
    let earlier = length revs - 5 in
    let tc = count_text b.inventory p (freshness w b.inventory p) in
    let noted =
      (if ltb 0 earlier
        then channel_notice cfg
            (cat (
              text "["
              ∷ p.key
              ∷ text "] … +"
              ∷ show earlier
              ∷ text " earlier commit(s) in "
              ∷ p.repo
              ∷ []))
            b
        else b) in
    set_topic cfg w (announce_revs cfg w p tc (drop earlier revs) noted)

-- `poll_project`
unfoldable pub poll_project : Config → World → Project → Bot → Bot
poll_project cfg w p b =
    let cur = head_of w p in
    if not (w.is_dir p.repo)
    then b
    else if is_empty cur
    then b
    else if same cur (seen p b)
    then b
    else report cfg w p (new_revs w p (seen p b) cur) (accept_head p cur b)
