-- ===== src/Smoke/Session.antt =====
-- A smoke test as a script: what it does is a list of events, the latest first, and what the daemon
-- and the sockets answer is a function of the events so far. What is printed is left out.
pub mod Ends
pub mod Keeps
pub mod Success
use orochi.Prelude.{ℕ, Bool, true, false, List, [], ◌∷◌, Option, none, some, if◌then◌else◌}
use orochi.Text.{Text}
use orochi.Smoke.{Bytes, recv_until, ws_recv_text, ws_frame}

-- A connection, by the variable that holds it.
pub data Conn : Type 0 where
  conn_a conn_a2 conn_b conn_c conn_c2 conn_d conn_e conn_t conn_w : Conn
  filler : ℕ → Conn

-- Times are milliseconds. A reception holds the needle, the timeout and the text; `removed` is the
-- attempt to remove a file, whose errors are passed over; `waited` says whether `proc.wait` saw the
-- process end before its timeout.
pub data Event : Type 0 where
  wrote : Text → Text → Event
  started terminated killed : Event
  limited : ℕ → Option ℕ → Event
  slept : ℕ → Event
  polled waited : Bool → Event
  connected closed : Conn → Event
  sent : Conn → Bytes → Event
  received : Conn → Bytes → ℕ → Text → Event
  read_log : Text → Event
  removed : Text → Event

abbrev pub Trace : Type 0
Trace = List Event

-- Why a test exits with 1, by the call of `fail`.
pub data Reason : Type 0 where
  no_binary died_in_boot not_registered no_pong died_in_service : Reason
  register_reply no_prompt login_failed not_elevated no_token : Reason
  died_in_upgrade pid_changed no_listener no_seals no_other_shard : Reason
  shard_not_adopted nothing_attached no_breakdown too_few_attached : Reason
  connection_broke token_changed umode_lost monitor_lost silence_lost : Reason
  nick_lost membership_lost : Reason

-- How a script ends: `sys.exit(1)` is `exited`, an exception of a socket `raised`.
pub data Outcome (A : Type 0) : Type 0 where
  returned : A → Outcome A
  exited : Reason → Outcome A
  raised : Outcome A

abbrev pub Script : Type 0 → Type 0
Script A = Trace → Outcome A × Trace

-- The daemon and the sockets; `none` for a reception is an exception. `elapsed` is the time since
-- the script began; a hard limit of `none` is `RLIM_INFINITY`.
pub record World : Type 0 where
  pub binary_exists : Bool
  pub stack_hard_limit : Option ℕ
  pub running : Trace → Bool
  pub pid : Trace → ℕ
  pub stops_in_time : Trace → Bool
  pub accepts : Conn → Trace → Bool
  pub delivers : Conn → Trace → Bool
  pub chunks : Conn → Trace → Option (List Bytes)
  pub elapsed : Trace → ℕ
  pub random : ℕ → Trace → Bytes
  pub log : Trace → Text
  pub decode : Bytes → Text

abbrev pub continue_ : {A B : Type 0} → (A → Script B) → Outcome A × Trace → Outcome B × Trace
continue_ f (returned a, tr) = f a tr
continue_ f (exited r, tr) = (exited r, tr)
continue_ f (raised, tr) = (raised, tr)

abbrev pub ◌>>=◌ : {A B : Type 0} → Script A → (A → Script B) → Script B
(m >>= f) tr = continue_ f (m tr)

abbrev pub ◌>>◌ : {B : Type 0} → Script (Unit {0}) → Script B → Script B
(m >> k) tr = continue_ (λ u. k) (m tr)

infixl 5 ◌>>=◌ ◌>>◌
abbrev pub give : {A : Type 0} → A → Script A
give a tr = (returned a, tr)

abbrev pub act : Event → Script (Unit {0})
act e tr = (returned tt, e ∷ tr)

-- `try: m except OSError: h`
abbrev caught : {A : Type 0} → Script A → Outcome A × Trace → Outcome A × Trace
caught h (returned a, tr) = (returned a, tr)
caught h (exited r, tr) = (exited r, tr)
caught h (raised, tr) = h tr

abbrev pub catch : {A : Type 0} → Script A → Script A → Script A
catch m h tr = caught h (m tr)

-- What came, if nothing was raised.
abbrev pub heard : Conn → Bytes → ℕ → (List Bytes → Text) → Option (List Bytes) → Script Text
heard c needle timeout read none tr = (raised, tr)
heard c needle timeout read (some cs) tr =
    (returned (read cs), received c needle timeout (read cs) ∷ tr)

abbrev pub or_raise : {A : Type 0} → Option A → Script A
or_raise none tr = (raised, tr)
or_raise (some a) tr = (returned a, tr)

module _ (w : World) where
  -- `proc.poll() is None`
  unfoldable pub poll : Script Bool
  poll tr = (returned (w.running tr), polled (w.running tr) ∷ tr)

  unfoldable pub connect : Conn → Script (Unit {0})
  connect c tr = if w.accepts c tr then (returned tt, connected c ∷ tr) else (raised, tr)

  -- `sendall`
  unfoldable pub send : Conn → Bytes → Script (Unit {0})
  send c s tr = if w.delivers c tr then (returned tt, sent c s ∷ tr) else (raised, tr)

  -- `recv_until` on a socket.
  unfoldable pub recv : Conn → Bytes → ℕ → Script Text
  recv c needle timeout tr =
      heard c needle timeout (λ cs. w.decode (recv_until needle [] cs)) (w.chunks c tr) tr

  -- `ws_recv_text` on a socket.
  unfoldable pub ws_recv : Conn → Bytes → ℕ → Script Text
  ws_recv c needle timeout tr =
      heard c needle timeout (λ cs. w.decode (ws_recv_text needle cs)) (w.chunks c tr) tr

  -- `for p in paths: os.remove(p)`, whose errors are passed over.
  unfoldable pub remove_all : List Text → Script (Unit {0})
  remove_all [] tr = (returned tt, tr)
  remove_all (p ∷ ps) tr = remove_all ps (removed p ∷ tr)

  -- `terminate`, `wait` and, if that takes too long, `kill`.
  unfoldable pub stop : Script (Unit {0})
  stop tr =
      let tr' = terminated ∷ tr in
      if w.stops_in_time tr'
      then (returned tt, waited true ∷ tr')
      else (returned tt, killed ∷ waited false ∷ tr')

  unfoldable pub stop_if : Bool → Script (Unit {0})
  unfolding stop
  stop_if true = stop
  stop_if false = give tt

  -- `cleanup(proc)`
  unfoldable pub cleanup : List Text → Script (Unit {0})
  unfolding poll stop_if remove_all
  cleanup paths = do alive ← poll; stop_if alive; remove_all paths

  -- `fail(msg, proc)`
  unfoldable pub fail : {A : Type 0} → List Text → Reason → Script A
  unfolding cleanup
  fail paths r = do cleanup paths; λ tr. (exited r, tr)

  -- `fail(msg)`, before there is a process.
  unfoldable pub fail_early : {A : Type 0} → List Text → Reason → Script A
  unfolding remove_all
  fail_early paths r = do remove_all paths; λ tr. (exited r, tr)

  -- `if not good: fail(msg, proc)`
  unfoldable pub check : List Text → Bool → Reason → Script (Unit {0})
  unfolding fail
  check paths good r = if good then give tt else fail paths r

  -- `proc.pid`
  unfoldable pub pid : Script ℕ
  pid tr = (returned (w.pid tr), tr)

  -- `open(LOG).read()`
  unfoldable pub log_text : Script Text
  log_text tr = (returned (w.log tr), read_log (w.log tr) ∷ tr)

  -- `ws_frame`, with its random mask; a payload that is too long raises.
  unfoldable pub frame : Bytes → Script Bytes
  frame payload tr = or_raise (ws_frame (w.random 4 tr) payload) tr
