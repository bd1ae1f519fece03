-- ===== src/Announce/Bot/Loop/Tests.antt =====
-- Runs of whole connections: the server asks for a PONG, cut in two, and an administrator tries to
-- set the topic of #root.
use orochi.Prelude.{false, Option, none, some, List, [], ◌∷◌, ◌++◌, ◌≡◌, All}
use orochi.Text.{Text, text}
use orochi.Announce.World.{World}
use orochi.Announce.Bot.{Bot}
use orochi.Announce.Bot.Effects.Server.{IsAllowed}
use orochi.Announce.Bot.Loop.{Bytes, crlf, receive_data, rounds, loop_start, attempt}
use orochi.Announce.Bot.Loop.Lines.{
  NoLineEnd, empty-NoLineEnd, glue, after_lines, receive_data-handle_each,
}
use orochi.Announce.Bot.Loop.Stream.{Turn, Turns, all_lines, line_rounds, rounds-line_rounds}
use orochi.Announce.Bot.Loop.Safe.{worlds, attempt-IsAllowed}
use orochi.Announce.Tests.{cfg, world, bot}

abbrev ascii : Bytes → Text
ascii d = d

abbrev inputs : List (World × Option Bytes)
inputs =
    (world, some (text "PING :a" ++ 13 ∷ []))
    ∷ (world, none)
    ∷ (world, some (10 ∷ (text ":kain!k@h PRIVMSG #root :!raw TOPIC #root :x" ++ crlf)))
    ∷ (world, some [])
    ∷ []

abbrev fresh : Bot
fresh = record bot { wire = []; outq = [] }

attempt-IsAllowed_example :
    All (IsAllowed cfg (world ∷ worlds inputs)) (attempt ascii cfg world inputs fresh).wire
attempt-IsAllowed_example = attempt-IsAllowed ascii cfg world inputs fresh tt

receive_data-handle_each_example :
    (ls : List Bytes) × (rest : Bytes) × (text "PI" ++ (text "NG :a" ++ crlf ++ text "PI")
      ≡ glue ls rest)
    × All NoLineEnd ls
    × NoLineEnd rest
    × (receive_data ascii cfg world
          (text "NG :a" ++ crlf ++ text "PI")
          (record (loop_start world bot) { buf = text "PI" })
        ≡ after_lines ascii cfg world ls rest false
            (record (loop_start world bot).bot { last_rx = 100000 }))
receive_data-handle_each_example =
    receive_data-handle_each ascii cfg world (text "NG :a" ++ crlf ++ text "PI")
      (record (loop_start world bot) { buf = text "PI" })

rounds-line_rounds_example :
    (ts : List (World × Turn)) × (rest : Bytes) × Turns inputs ts
    × (text "PING :a" ++ crlf ++ text ":kain!k@h PRIVMSG #root :!raw TOPIC #root :x" ++ crlf
        ≡ glue (all_lines ts) rest)
    × All NoLineEnd (all_lines ts)
    × NoLineEnd rest
    × (rounds ascii cfg inputs (loop_start world fresh)
        ≡ line_rounds ascii cfg ts false (loop_start world fresh).bot)
rounds-line_rounds_example =
    rounds-line_rounds ascii cfg inputs (loop_start world fresh) empty-NoLineEnd
