-- ===== src/Announce/Config/Projects.antt =====
-- The two watched projects of tools/announce_bot.py, and how a command's argument selects them.
use orochi.Prelude.{◌≡◌, refl, Option, none, some, List, [], ◌∷◌, if◌then◌else◌}
use orochi.Text.{Text, text, cat, is_empty, same, strip, lower}
use orochi.Text.Dict.{put, get?}
use orochi.Announce.Config.Shell.{
  onyx_repo, onyx_server_repo, quoted_find_tsx, quoted_loc_ts, quoted_test_files_ts,
  quoted_test_blocks_zig, quoted_find_zig, quoted_loc_zig,
}
use orochi.Announce.Config.{Project, bold, rst, blue, mag}

unfoldable pub onyx : Project
onyx = record {
  key = text "onyx";
  name = text "Onyx";
  emoji = text "💎";
  accent = blue;
  repo = onyx_repo;
  module_label = text "components";
  module_cmd = quoted_find_tsx onyx_repo;
  loc_cmd = quoted_loc_ts onyx_repo;
  test_cmd = quoted_test_files_ts onyx_repo;
  test_label = text "test files";
  stats_suffix = text "Solid+Vite";
  topic_label = text "Onyx";
  user_realname = text "Onyx build announcer";
  project_lines =
      (cat (
          bold
          ∷ blue
          ∷ text "💎 Onyx"
          ∷ rst
          ∷ text
              " — first-party web client for the Onyx network. SolidJS, dark-luxury, mesh-native chat + realtime media (Vite + Solid signals)."
          ∷ [])
        ∷ text
            "IRCv3/IRCX over WebSocket, SASL + SESSION-TOKEN resume, local-first vault, Home catch-up, E2EE DMs, Cadence voice/video (hop-honest; no fake padlock)."
        ∷ cat (
            text "Headline: deep theming + "
            ∷ bold
            ∷ text "Theme Studio"
            ∷ rst
            ∷ text
                " + animated backgrounds · View Transitions · on-device hybrid search · time-native jump."
            ∷ [])
        ∷ cat (text "Built max-parallel (Claude + Codex). repo: " ∷ onyx_repo ∷ [])
        ∷ []);
  roadmap =
      (text "Era 0 substrate ✔ · vault · push · E2EE DM · Cadence control plane"
        ∷ text "Era 1 thesis-visible: Home strata · jump-to-date · passkey primary · ribbon More"
        ∷ text "Era 2 app-complete: multi-device session · full MEDIA UI · channel admin"
        ∷ text "Era 3 moat: group E2EE · files · mention push · hierarchy"
        ∷ []);
  progress_text = cat (
      bold
      ∷ text "live"
      ∷ rst
      ∷ text
          ": vault + Home · passkeys · labeled-response · Cadence shield · ribbon More. static test inventory={tests}, components={modules}. Next: cold vault paint polish, A10 binary release, Era 2 multi-device."
      ∷ []);
}

unfoldable pub onyx_server : Project
onyx_server = record {
  key = text "onyx-server";
  name = text "Onyx Server";
  emoji = text "🐉";
  accent = mag;
  repo = onyx_server_repo;
  module_label = text "modules";
  module_cmd = quoted_find_zig onyx_server_repo;
  loc_cmd = quoted_loc_zig onyx_server_repo;
  test_cmd = quoted_test_blocks_zig onyx_server_repo;
  test_label = text "test blocks";
  stats_suffix = text "zig 0.17";
  topic_label = text "Onyx Server";
  user_realname = text "Onyx Server build announcer";
  project_lines =
      (cat (
          bold
          ∷ mag
          ∷ text "🐉 Onyx Server"
          ∷ rst
          ∷ text
              " — pure-Zig IRC/IRCX daemon (AGPL). Formerly codenamed Orochi; same engine, honest name."
          ∷ [])
        ∷ text
            "IRCv3/IRCX + accounts/SASL, multi-session bouncer, Event Spine, and Cadence media conferencing (rooms, roster, hop-secured SFU path)."
        ∷ text
            "Mesh = Undertow CRDT over Mooring secure S2S, Warden anti-abuse, MEMO offline mail / Web Push. One static musl binary, zero external deps."
        ∷ cat (text "Built max-parallel (Claude + Codex). repo: " ∷ onyx_server_repo ∷ [])
        ∷ []);
  roadmap =
      (text
          "core ✔ · IRCv3/IRCX ✔ · accounts/SASL ✔ · multi-session bouncer ✔ · host-cloak/VHOST/CHGHOST ✔"
        ∷ text "Warden + flood/clone ✔ · media plane ✔ · MEMO/Web Push ✔ · Helix USR2 ✔"
        ∷ text "mesh: Undertow CRDT + Mooring S2S + anti-entropy"
        ∷ text "next: public GitHub Release binary (A10) · operator packaging polish"
        ∷ []);
  progress_text = cat (
      bold
      ∷ text "live"
      ∷ rst
      ∷ text
          ": accounts/SASL · multi-session · media plane · mesh + Helix. static test inventory={tests}, modules={modules}. Next: attested release artifact, deeper services."
      ∷ []);
}

-- `PROJECTS`
unfoldable pub projects : List Project
projects = onyx ∷ onyx_server ∷ []

by_name : List Project → List (Text × Project) → List (Text × Project)
by_name [] d = d
by_name (p ∷ ps) d = by_name ps (put (lower p.name) p (put p.key p d))

-- `PROJECTS_BY_ALIAS`
unfoldable pub projects_by_alias : List (Text × Project)
unfolding by_name
projects_by_alias = put (text "onyxserver") onyx_server (
    put (text "daemon") onyx_server
      (put (text "server") onyx_server (put (text "orochi") onyx_server (by_name projects []))))

abbrev singleton_of : Option Project → Option (List Project)
singleton_of none = none
singleton_of (some p) = some (p ∷ [])

-- `select_projects`
unfoldable pub select_projects : Text → Option (List Project)
select_projects arg =
    let token = lower (strip arg) in
    if is_empty token then some projects else singleton_of (get? token projects_by_alias)

select_server : select_projects (text " Orochi ") ≡ some (onyx_server ∷ [])
unfolding select_projects projects_by_alias projects onyx onyx_server put get? same lower strip
select_server = refl
