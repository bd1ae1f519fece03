-- ===== src/Lib.antt =====
-- The verification library of the Python tools of this repository.
--
-- tools/announce_bot.py is an IRC bot. Its parts: the constants and the two watched projects, a
-- cache of repository measurements that a worker thread fills, the chunking of replies, and the
-- class Bot, whose socket loop reads lines from the server (`handle`), answers them, and drains a
-- paced queue. .agents/skills/onyx-server-zig-verification/scripts/select-gates.py selects build
-- gates for changed paths. tools/upgrade_smoke.py and tools/runtime_smoke.py start the daemon, talk
-- to it over sockets and stop it. The validator of the agents' toolkit reads the agents and
-- skills that the repository holds and fails on the first that breaks a rule.
--
-- Text is a list of code points (Text.antt), with Python's methods on it: splitting and white
-- space in Text/Split.antt, the order of texts and `sorted` in Text/Order.antt, `int` and `str`
-- in Text/Number.antt, UTF-8 and base64 in Text/Encode.antt. A set is a list without repetitions.
--
-- Announce/Chunks.antt: `byte_len`, `split_text`, `compact`.
-- Announce/Config.antt: the environment's settings as a record, `Project`;
--   Announce/Config/Shell.antt the counting commands; Announce/Config/Projects.antt `PROJECTS` and
--   `select_projects`.
-- Announce/World.antt: what surrounds one call (git, the shell, the clock, the socket) as a
--   record of functions and values, and the helpers that read it; times are milliseconds.
-- Announce/Inventory.antt: `collect_inventory`, `InventoryCache`, `inventory_status`; its threads
--   as interleaved steps in Announce/Inventory/Steps.antt.
-- Announce/Bot.antt: the state of `Bot` and its output methods. The field `wire` holds the
--   payloads of the calls of `sendall` of the current connection, without the line end of each. Announce/Bot/Caps.antt: `cap_end` and `handle_cap`;
--   Announce/Bot/Ctcp.antt `ctcp`; Announce/Bot/ProjectCommands.antt and Announce/Bot/Commands.antt
--   `command`; Announce/Bot/Handle.antt `handle`; Announce/Bot/Lifecycle.antt `connect` and the
--   delays of `run`; Announce/Bot/Commits.antt and its children the commit cards and
--   `poll_project`; Announce/Bot/Loop.antt the rounds of `loop`. Announce/Bot/Effects.antt
--   describes what an operation adds to the wire and the queue.
-- Gates.antt: `select` as a table with one row for each `if` of the loop body, and `main`.
--
-- Smoke/Session.antt: a smoke test as a script that adds to a list of events, the latest first, in
--   a world (daemon, sockets, clock, log) whose answers are functions of the events so far; an exit
--   by `fail` and an exception of a socket are outcomes. Smoke/Runtime.antt:
--   tools/runtime_smoke.py. Smoke/Upgrade.antt and its children Before and After: `main` of
--   tools/upgrade_smoke.py; Smoke/Upgrade/Pattern.antt its regular expressions.
-- Smoke.antt: `ws_frame`, `ws_recv_text` and `recv_until` of tools/upgrade_smoke.py on bytes; the
--   specification of frames after RFC 6455 in Smoke/Frames/Sent.antt and Smoke/Masks.antt.
--
-- Toolkit.antt: .agents/skills/onyx-server-agent-toolkit/scripts/validate_toolkit.py, which checks
--   the agents and skills of the repository. Toolkit/Checks.antt holds its failures, one constructor
--   for each call of `fail` and each exception; Toolkit/Policy.antt the tables;
--   Toolkit/Roles.antt `server_zig_role` and the two consistency tests; Toolkit/Frontmatter.antt
--   `frontmatter`, `scalar` and `csv`; Toolkit/Skills.antt, Toolkit/Codex.antt and
--   Toolkit/Claude.antt the three validations; Toolkit/Run.antt `main`. The rules that a file must
--   meet stand in Toolkit/Codex/Accepted.antt and Toolkit/Claude/Accepted.antt. The files arrive as
--   names and texts, in the order of the sorted globs; what `tomllib` makes of a text is an argument.
--
-- Fuel: the cutting loop of `channel_say` takes the length of its text, which falls in every
-- round; the digits of a number take the number; the reader of frames and the socket loop take
-- the length of their buffer, of which every round takes two bytes at least; the soft wrap of a
-- commit’s message takes the length of its text.
--
-- Assumed: one call of a handler, and one round of the loop, sees one state of git, the clock and
-- the socket, and the clock does not run backwards. The decoding of received bytes is a
-- parameter. Case mapping is exact on ASCII and wherever an ASCII letter results. `\d` is the
-- ASCII digits. The rounding of a float in `_format_loc` is a parameter. Payloads on the wire are
-- taken whole: one may hold a line feed (the token of a PING keeps one), and is then several
-- lines to the daemon.
--
-- Not modelled: the start of the process, signals, logging and what the smoke tests print, the stub
-- of the toolkit's launcher (.agents/skills/onyx-server-agent-toolkit/scripts), whose checks are of
-- JSON documents, and the daemon itself, which is written in Zig.
pub mod Prelude
pub mod Text
pub mod Gates
pub mod Announce
pub mod Smoke
pub mod Toolkit
