-- ===== src/Smoke/Upgrade.antt =====
-- tools/upgrade_smoke.py: `main`. What is printed is left out.
pub mod Pattern
pub mod Before
pub mod After
pub mod Ends
pub mod Survivors
pub mod Success
pub mod Tests
use orochi.Prelude.{
  ℕ, Bool, true, not, ◌&&◌, ◌||◌, Option, none, some, List, [], ◌∷◌, ◌++◌, if◌then◌else◌,
}
use orochi.Text.{Text, text, contains, show}
use orochi.Text.Encode.{base64}
use orochi.Smoke.{Bytes}
use orochi.Smoke.Session.{
  Conn, conn_b, conn_d, Event, Reason, not_registered, no_prompt, login_failed, register_reply,
  no_token, Script, World, ◌>>=◌, ◌>>◌, give, act, fail, connect, send, recv, check,
}
use orochi.Smoke.Upgrade.Pattern.{token_in}

abbrev pub conf : Text
conf = text "/tmp/mz_upgrade.toml"

abbrev db : Text
db = text "/tmp/mz_upgrade_accts.db"

abbrev pub databases : List Text
databases = db ∷ (db ++ text ".wal") ∷ []

abbrev pub paths : List Text
paths = conf ∷ text "/tmp/mz_upgrade.log" ∷ databases

abbrev pub account : Text
account = text "admin"

abbrev pub password : Text
password = text "secretpass0"

abbrev pub bounce_account : Text
bounce_account = text "bounce"

abbrev pub bounce_password : Text
bounce_password = text "secretpass1"

abbrev pub num_shards : ℕ
num_shards = 2

abbrev pub filler_clients : ℕ
filler_clients = 8

-- The configuration file.
abbrev pub config_text : Text
config_text =
    text "[node]\nid = 1\n"
    ++ text "[limits]\nnum_shards = "
    ++ show num_shards
    ++ text "\n[listen]\nirc = 16720\nws = 16722\n"
    ++ text "[tls]\nenabled = true\nport = 16721\n"
    ++ text "[sasl]\naccount_db = \""
    ++ db
    ++ text "\"\n"
    ++ text "[[oper_groups]]\nname = \"netadmin\"\n"
    ++ text
        "privileges = [\"server_restart\", \"server_rehash\", \"server_admin\", \"mesh_admin\"]\n"
    ++ text "[[opers]]\naccount = \""
    ++ account
    ++ text "\"\nclass = \"netadmin\"\n"

-- A greeting that must be answered by the welcome.
unfoldable pub greet : World → Conn → Bytes → Script (Unit {0})
greet w c hello = do
  send w c hello
  answer ← recv w c (text " 001 ") 4000
  check w paths (contains answer (text " 001 ")) not_registered

-- `REGISTER` of an account.
unfoldable pub register : World → Conn → Text → Text → Script (Unit {0})
register w c name secret = do
  send w c (text "REGISTER " ++ name ++ text " * " ++ secret ++ text "\r\n")
  answer ← recv w c (text "REGISTER") 20000
  check w paths (contains answer (text "REGISTER SUCCESS") || contains answer (text "FAIL"))
      register_reply

-- The login over SASL.
unfoldable pub login : World → Conn → Text → Text → Script (Unit {0})
unfolding base64
login w c name secret = do
  connect w c
  send w c (text "CAP LS 302\r\n")
  offer ← recv w c (text "CAP") 4000
  send w c (text "CAP REQ :sasl\r\nAUTHENTICATE PLAIN\r\n")
  prompt ← recv w c (text "AUTHENTICATE +") 4000
  check w paths (contains prompt (text "AUTHENTICATE +")) no_prompt
  send w c (text "AUTHENTICATE " ++ base64 (0 ∷ name ++ 0 ∷ secret) ++ text "\r\n")
  answer ← recv w c (text "90") 20000
  check w paths (contains answer (text " 903 ") || contains answer (text " 900 ")) login_failed

-- A value that must be there.
abbrev pub need : {A : Type 0} → World → Option A → Reason → Script A
need w none r = fail w paths r
need w (some a) r = give a

-- The token of the session.
unfoldable pub session_token : World → Script Text
unfolding token_in
session_token w = do
  send w conn_d (text "SESSION TOKEN\r\n")
  answer ← recv w conn_d (text "SESSION TOKEN ") 4000
  need w (token_in answer) no_token
