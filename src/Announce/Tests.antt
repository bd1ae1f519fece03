-- ===== src/Announce/Tests.antt =====
-- Runs of the bot on concrete inputs, and the properties at concrete inputs.
use orochi.Prelude.{◌+◌, ◌≤◌, true, false, none, some, [], ◌∷◌, ◌++◌, ◌≡◌, refl, arith, All}
use orochi.Text.{is_space, starts_with, Text, text, same, member, rstrip, join, show}
use orochi.Text.Split.{cut, clean_lines, split_on}
use orochi.Announce.Chunks.{
  byte_len, flush, take_parts, split_text, split_word, take_words, parts_of, bar, compact,
}
use orochi.Announce.Chunks.Bounds.{split_text_bounds, compact_bounds}
use orochi.Announce.Chunks.Content.{spaceless, glue, spaceless-split_text}
use orochi.Announce.Chunks.Content.Merge.{join-compact}
use orochi.Announce.Config.{Config}
use orochi.Announce.World.{World, search_count, uptime}
use orochi.Announce.Inventory.{request, mark, enqueue, empty_cache}
use orochi.Announce.Inventory.Steps.{
  System, start, marks, puts, takes, Reach, here, next, Inv, Reach-Inv, request_while_working,
}
use orochi.Announce.Bot.{Bot, topic_change_protected, privmsg_line, cap_text}
use orochi.Announce.Bot.HardCap.{privmsg_line-cap_text}
use orochi.Announce.Bot.Commands.{is_admin, command}
use orochi.Announce.Bot.Handle.{parse_privmsg, parse_kick, handle}
use orochi.Announce.Bot.Handle.Pong.{handle_ping}
use orochi.Announce.Bot.Effects.{Adds}
use orochi.Announce.Bot.Effects.People.{Addressed, command-Addressed}
use orochi.Announce.Bot.Lifecycle.{delays, reconnect_min, reconnect_max}
use orochi.Announce.Bot.Lifecycle.Backoff.{delays_bounds, delays-failures, failures, doublings}

abbrev pub cfg : Config
cfg = record {
  nick = text "Announce";
  channel = text "#root";
  admin = text "kain";
  password = [];
  sasl_user = [];
  sasl_pass = [];
  start = 0;
}

abbrev pub world : World
world = record {
  run_git = λ _ _. none;
  run_shell = λ _. none;
  is_dir = λ _. true;
  thousands = λ n. show n;
  now = 100000;
  local_time = text "2026-01-01 00:00:00 UTC";
  link_up = true;
  connects = true;
}

abbrev pub bot : Bot
bot = record {
  sock = true;
  nick = text "Announce";
  last_commit = [];
  last_tests = [];
  last_beat = 0;
  last_poll = 0;
  last_topic = [];
  outq = text "PRIVMSG #root :hello" ∷ [];
  last_send = 0;
  caps = [];
  cap_ls = [];
  cap_ended = false;
  connect_ts = 0;
  sasl_active = false;
  registered = false;
  last_rx = 0;
  last_keepalive = 0;
  intro_done = false;
  inventory = empty_cache;
  wire = [];
}

abbrev long_line : Text
long_line = text "ab cde éééééé f"

split_long_line : split_text 10 long_line ≡ text "ab cde" ∷ text "ééééé" ∷ text "é f" ∷ []
unfolding split_text take_words split_word byte_len split_on
split_long_line = refl

compact_lines :
    compact 20 (text "  one\t two " ∷ [] ∷ text "three" ∷ text "four four four" ∷ [])
    ≡ (text "one two" ++ bar ++ text "three") ∷ text "four four four" ∷ []
unfolding compact parts_of split_text take_words byte_len clean_lines flush take_parts
compact_lines = refl

guarded :
    (topic_change_protected (text " topic #ROOT :x") ≡ true)
    × (topic_change_protected (text "TOPIC #other :x") ≡ false)
unfolding topic_change_protected
guarded = (refl, refl)

read_privmsg :
    parse_privmsg (text ":kain!u@h PRIVMSG #root :!raw TOPIC #root :x")
    ≡ some (record { nick = text "kain"; target = text "#root"; body = text "!raw TOPIC #root :x" })
unfolding parse_privmsg
read_privmsg = refl

-- The guard reads the first two words: a source or tags in front hide the command from it.
prefixed_topic : topic_change_protected (text ":x TOPIC #root :y") ≡ false
unfolding topic_change_protected
prefixed_topic = refl

tagged_topic : topic_change_protected (text "@a=b TOPIC #root :y") ≡ false
unfolding topic_change_protected
tagged_topic = refl

read_kick :
    parse_kick (text "Announce") (text ":op!u@h KICK #root Announce :bye") ≡ some (text "#root")
unfolding parse_kick
read_kick = refl

shortstat :
    search_count
      (text " file changed" ∷ text " files changed" ∷ [])
      (text " 7 files changed, 312 insertions(+)")
    ≡ some (text "7")
unfolding search_count
shortstat = refl

up_for : uptime cfg world ≡ text "0h 1m 40s"
unfolding uptime
up_for = refl

split_text_bounds_example : All (λ chunk. byte_len chunk ≤ 10) (split_text 10 long_line)
split_text_bounds_example = split_text_bounds 10 (omega arith) long_line

compact_bounds_example : All (λ chunk. byte_len chunk ≤ 12) (compact 12 (long_line ∷ []))
compact_bounds_example = compact_bounds 12 (omega arith) (long_line ∷ [])

spaceless-split_text_example : spaceless (glue (split_text 10 long_line)) ≡ spaceless long_line
spaceless-split_text_example = spaceless-split_text 10 long_line

join-compact_example :
    join bar (compact 12 (long_line ∷ [])) ≡ join bar (parts_of 12 (clean_lines (long_line ∷ [])))
join-compact_example = join-compact 12 (long_line ∷ [])

abbrev key : Text
key = text "onyx"

abbrev marked : System
marked = record start { cache = mark key start.cache; on_the_way = key ∷ start.on_the_way }

abbrev waiting : System
waiting = record marked { cache = enqueue key marked.cache; on_the_way = [] }

abbrev measuring : System
measuring = record waiting { cache = record waiting.cache { requests = [] }; working = key ∷ [] }

Reach-measuring : Reach measuring
unfolding member enqueue mark
Reach-measuring =
    next (next (next here (marks start key refl)) (puts marked key [] [] refl))
      (takes waiting key [] refl refl)

Reach-Inv_example : Inv measuring
Reach-Inv_example = Reach-Inv Reach-measuring

request_while_working_example : request key measuring.cache ≡ measuring.cache
request_while_working_example = request_while_working key Reach-measuring refl

not_admin : is_admin cfg (text "eve") ≡ false
unfolding is_admin same
not_admin = refl

command-Addressed_example :
    Adds
      (Addressed (text "#root"))
      (Addressed (text "#root"))
      bot
      (command cfg world (text "eve") (text "#root") (text "!raw QUIT") bot)
command-Addressed_example =
    command-Addressed cfg world (text "eve") (text "#root") (text "!raw QUIT") bot not_admin

handle_ping_example :
    (handle cfg world (text "PING :" ++ text "tok") true bot
      ≡ (record bot { wire = text "PONG :tok" ∷ [] }, true))
    × (handle cfg world (b'@' ∷ (text "time=1" ++ (text " PING :" ++ text "tok"))) true bot
        ≡ (record bot { wire = text "PONG :tok" ∷ [] }, true))
    × (handle cfg world (b':' ∷ text "irc.a" ++ (text " PING :" ++ text "tok")) true bot
        ≡ (record bot { wire = text "PONG :tok" ∷ [] }, true))
    × (handle cfg world
          (b'@' ∷ (text "time=1" ++ b' ' ∷ (b':' ∷ text "irc.a" ++ (text " PING :" ++ text "tok"))))
          true
          bot
        ≡ (record bot { wire = text "PONG :tok" ∷ [] }, true))
unfolding rstrip is_space cut starts_with
handle_ping_example =
    handle_ping cfg world (text "tok") true bot refl refl refl (text "time=1") (text "irc.a")
      (refl, (refl, (refl, (refl, (refl, (refl, tt)))))) (refl, (refl, (refl, (refl, (refl, tt)))))
      refl

privmsg_line-cap_text_example :
    byte_len (privmsg_line (text "#root") (cap_text long_line)) + 2 ≤ 512
unfolding byte_len
privmsg_line-cap_text_example = privmsg_line-cap_text (text "#root") long_line (omega arith)

delays_bounds_example :
    All (λ d. (reconnect_min ≤ d) × (d ≤ reconnect_max)) (delays reconnect_min (true ∷ failures 7))
delays_bounds_example = delays_bounds (true ∷ failures 7)

delays-failures_example : delays 48 (true ∷ failures 7) ≡ doublings 0 8
delays-failures_example = delays-failures 48 7
