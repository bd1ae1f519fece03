-- ===== src/Announce/Config.antt =====
-- The constants of tools/announce_bot.py: the environment's settings, the colours, the projects.
-- The environment enters as a record; the projects are those of the source.
pub mod Shell
pub mod Projects
use orochi.Prelude.{
  String, ℕ, ◌+◌, Bool, true, false, Option, none, some, List, [], ◌∷◌, ◌++◌, if◌then◌else◌, ◌==◌,
}
use orochi.Text.{Text, text, cat, is_empty, same, strip, lower, member}
use orochi.Text.Split.{split_on}

-- What the module reads from the environment at its start. `start` is `START`, in milliseconds.
pub record Config : Type 0 where
  pub nick : Text
  pub channel : Text
  pub admin : Text
  pub password : Text
  pub sasl_user : Text
  pub sasl_pass : Text
  pub start : ℕ

-- `PROTECTED_TOPIC_CHANNELS`
abbrev pub protected_topic_channels : List Text
protected_topic_channels = text "#root" ∷ []

-- `WANT_CAPS`
abbrev pub want_caps : List Text
want_caps = text "server-time" ∷ text "message-tags" ∷ text "account-tag" ∷ text "echo-message" ∷ []

-- `B`, `RST`, and the colours in use, each `C` and two digits.
abbrev pub bold : Text
bold = 2 ∷ []

abbrev pub rst : Text
rst = 15 ∷ []

abbrev pub colour : String → Text
colour digits = 3 ∷ text digits

abbrev pub white : Text
white = colour "00"

abbrev pub green : Text
green = colour "03"

abbrev pub red : Text
red = colour "04"

abbrev pub yel : Text
yel = colour "08"

abbrev pub teal : Text
teal = colour "10"

abbrev pub cyan : Text
cyan = colour "11"

abbrev pub blue : Text
blue = colour "12"

abbrev pub pink : Text
pink = colour "13"

abbrev pub mag : Text
mag = pink

abbrev pub grey : Text
grey = colour "14"

abbrev pub silver : Text
silver = colour "15"

pub record Project : Type 0 where
  pub key : Text
  pub name : Text
  pub emoji : Text
  pub accent : Text
  pub repo : Text
  pub module_label : Text
  pub module_cmd : Text
  pub loc_cmd : Text
  pub test_cmd : Text
  pub test_label : Text
  pub stats_suffix : Text
  pub topic_label : Text
  pub user_realname : Text
  pub project_lines : List Text
  pub roadmap : List Text
  pub progress_text : Text
