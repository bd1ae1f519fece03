-- ===== src/Smoke/Session/Keeps.antt =====
-- Scripts only add events.
use orochi.Prelude.{ℕ, Option-cases, Bool, true, false, List, [], ◌∷◌, inl, inr, Bool-cases}
use orochi.Text.{Text}
use orochi.Smoke.{Bytes}
use orochi.Smoke.Session.{
  Conn, Event, terminated, Trace, Reason, Outcome, returned, exited, raised, removed, pid, log_text,
  Script, World, continue_, caught, ◌>>=◌, ◌>>◌, give, act, catch, poll, connect, send, recv,
  ws_recv, remove_all, stop, stop_if, cleanup, fail, check,
}

-- A script only adds events: what more events cannot undo holds after it if it held before.
pub record Keeps {A : Type 0} (m : Script A) : Type 1 where
  pub keeps :
      (P : Trace → Type 0)
      → ((e : Event) (tr : Trace) → P tr → P (e ∷ tr))
      → (tr : Trace) → P tr
      → P (m tr).1

continue_-keeps :
    {A B : Type 0} (f : A → Script B) (P : Trace → Type 0)
    → ((e : Event) (tr : Trace) → P tr → P (e ∷ tr))
    → (x : Outcome A × Trace) → P x.1
    → ((a : A) → Keeps (f a))
    → P (continue_ f x).1
continue_-keeps f P up (returned a, tr) h k = (k a).keeps P up tr h
continue_-keeps f P up (exited r, tr) h k = h
continue_-keeps f P up (raised, tr) h k = h

pub bind-Keeps :
    {A B : Type 0} (m : Script A) (f : A → Script B)
    → Keeps m
    → ((a : A) → Keeps (f a))
    → Keeps (m >>= f)
bind-Keeps m f h k = record {
  keeps = λ P up tr i. continue_-keeps f P up (m tr) (h.keeps P up tr i) k;
}

pub then-Keeps :
    {B : Type 0} (m : Script (Unit {0})) (k : Script B) → Keeps m → Keeps k → Keeps (m >> k)
then-Keeps m k h l = record {
  keeps = λ P up tr i. continue_-keeps (λ u. k) P up (m tr) (h.keeps P up tr i) (λ u. l);
}

pub give-Keeps : {A : Type 0} (a : A) → Keeps (give a)
give-Keeps a = record { keeps = λ P up tr i. i }

pub act-Keeps : (x : Event) → Keeps (act x)
act-Keeps x = record { keeps = λ P up tr i. up _ _ i }

pub poll-Keeps : (w : World) → Keeps (poll w)
unfolding poll
poll-Keeps w = record { keeps = λ P up tr i. up _ _ i }

pub connect-Keeps : (w : World) (c : Conn) → Keeps (connect w c)
unfolding connect
connect-Keeps w c = record {
  keeps =
      λ P up tr i. elim (Bool-cases (w.accepts c tr)) [ inl y ↦ rw y (up _ _ i) | inr n ↦ rw n i ];
}

pub send-Keeps : (w : World) (c : Conn) (s : Bytes) → Keeps (send w c s)
unfolding send
send-Keeps w c s = record {
  keeps =
      λ P up tr i. elim (Bool-cases (w.delivers c tr)) [ inl y ↦ rw y (up _ _ i) | inr n ↦ rw n i ];
}

pub recv-Keeps :
    (w : World) (c : Conn) (needle : Bytes) (timeout : ℕ) → Keeps (recv w c needle timeout)
unfolding recv
recv-Keeps w c needle timeout = record {
  keeps = λ P up tr i. elim (Option-cases (w.chunks c tr)) [
    | inl n ↦ rw n i
    | inr (cs, y) ↦ rw y (up _ _ i)
  ];
}

pub ws_recv-Keeps :
    (w : World) (c : Conn) (needle : Bytes) (timeout : ℕ) → Keeps (ws_recv w c needle timeout)
unfolding ws_recv
ws_recv-Keeps w c needle timeout = record {
  keeps = λ P up tr i. elim (Option-cases (w.chunks c tr)) [
    | inl n ↦ rw n i
    | inr (cs, y) ↦ rw y (up _ _ i)
  ];
}

remove_all-keeps :
    (w : World) (ps : List Text) (P : Trace → Type 0)
    → ((e : Event) (tr : Trace) → P tr → P (e ∷ tr))
    → (tr : Trace) → P tr
    → P (remove_all w ps tr).1
unfolding remove_all
remove_all-keeps w [] P up tr i = i
remove_all-keeps w (p ∷ ps) P up tr i = remove_all-keeps w ps P up _ (up (removed p) tr i)

pub remove_all-Keeps : (w : World) (ps : List Text) → Keeps (remove_all w ps)
remove_all-Keeps w ps = record { keeps = remove_all-keeps w ps }

pub stop_if-Keeps : (w : World) (b : Bool) → Keeps (stop_if w b)
unfolding stop_if stop
stop_if-Keeps w false = give-Keeps tt
stop_if-Keeps w true = record {
  keeps = λ P up tr i. elim (Bool-cases (w.stops_in_time (terminated ∷ tr))) [
    | inl y ↦ rw y (up _ _ (up _ _ i))
    | inr n ↦ rw n (up _ _ (up _ _ (up _ _ i)))
  ];
}

pub cleanup-Keeps : (w : World) (ps : List Text) → Keeps (cleanup w ps)
unfolding cleanup
cleanup-Keeps w ps = search (bind-Keeps, then-Keeps, poll-Keeps, stop_if-Keeps, remove_all-Keeps)

pub fail-Keeps :
    {A : Type 0} (w : World) (ps : List Text) (r : Reason) → Keeps (fail w {A = A} ps r)
unfolding fail
fail-Keeps w ps r =
    then-Keeps (cleanup w ps) (λ tr. (exited r, tr)) (cleanup-Keeps w ps)
      (record { keeps = λ P up tr i. i })

pub check-Keeps : (w : World) (ps : List Text) (b : Bool) (r : Reason) → Keeps (check w ps b r)
unfolding check
check-Keeps w ps true r = give-Keeps tt
check-Keeps w ps false r = fail-Keeps w ps r

caught-keeps :
    {A : Type 0} (h : Script A) (P : Trace → Type 0)
    → ((e : Event) (tr : Trace) → P tr → P (e ∷ tr))
    → (x : Outcome A × Trace) → Keeps h
    → P x.1
    → P (caught h x).1
caught-keeps h P up (returned a, tr) l i = i
caught-keeps h P up (exited r, tr) l i = i
caught-keeps h P up (raised, tr) l i = l.keeps P up tr i

pub catch-Keeps : {A : Type 0} (m h : Script A) → Keeps m → Keeps h → Keeps (catch m h)
catch-Keeps m h k l = record {
  keeps = λ P up tr i. caught-keeps h P up (m tr) l (k.keeps P up tr i);
}

pub pid-Keeps : (w : World) → Keeps (pid w)
unfolding pid
pid-Keeps w = record { keeps = λ P up tr i. i }

pub log_text-Keeps : (w : World) → Keeps (log_text w)
unfolding log_text
log_text-Keeps w = record { keeps = λ P up tr i. up _ _ i }

-- A rule for each way to build a script.
pub ruleset keeps_rules = (
  then-Keeps, bind-Keeps, catch-Keeps, give-Keeps, act-Keeps, poll-Keeps, connect-Keeps, send-Keeps,
  recv-Keeps, ws_recv-Keeps, check-Keeps, fail-Keeps, cleanup-Keeps, pid-Keeps, log_text-Keeps,
)
