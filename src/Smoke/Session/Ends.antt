-- ===== src/Smoke/Session/Ends.antt =====
-- How a script leaves the daemon: by `cleanup` at every exit of its own.
use orochi.Prelude.{
  inl, inr, ◌⊎◌, sym, subst, ◌≡◌, refl, [], ℕ, Option-cases, Option, none, some, Bool, true, false,
  List, ◌∷◌, Bool-cases,
}
use orochi.Text.{Text}
use orochi.Smoke.{Bytes, ws_frame}
use orochi.Smoke.Session.{
  Conn, Event, terminated, killed, polled, waited, removed, Trace, Reason, Outcome, returned,
  exited, raised, or_raise, pid, log_text, frame, Script, World, continue_, caught, ◌>>=◌, ◌>>◌,
  give, act, catch, poll, connect, send, recv, ws_recv, remove_all, stop, stop_if, cleanup, fail,
  check, no_binary, fail_early,
}

-- The daemon was found dead, or ended in time when it was told to, or was killed because it did not.
pub data IsDown : Trace → Type 0 where
  was_dead : {tr : Trace} → IsDown (polled false ∷ tr)
  told : {tr : Trace} → IsDown (waited true ∷ terminated ∷ polled true ∷ tr)
  shot : {tr : Trace} → IsDown (killed ∷ waited false ∷ terminated ∷ polled true ∷ tr)

-- The attempts to remove the files, one after another.
abbrev pub removals : List Text → Trace → Trace
removals [] tr = tr
removals (p ∷ ps) tr = removals ps (removed p ∷ tr)

-- The last thing done is `cleanup`: the daemon is down, then the removal of every file is tried.
pub data IsClean (paths : List Text) : Trace → Type 0 where
  clean : {tr : Trace} → IsDown tr → IsClean paths (removals paths tr)

-- An exit of the script's own has cleaned up.
abbrev pub EndsClean : List Text → {A : Type 0} → Outcome A × Trace → Type 0
EndsClean paths (returned a, tr) = Unit
EndsClean paths (exited r, tr) = IsClean paths tr
EndsClean paths (raised, tr) = Unit

pub remove_all-eq :
    (w : World) (ps : List Text) (tr : Trace) → remove_all w ps tr ≡ (returned tt, removals ps tr)
unfolding remove_all
remove_all-eq w [] tr = refl
remove_all-eq w (p ∷ ps) tr = remove_all-eq w ps (removed p ∷ tr)

-- `cleanup` does what its name says.
pub cleanup-IsClean :
    (w : World) (paths : List Text) (tr : Trace)
    → (tr' : Trace) × (cleanup w paths tr ≡ (returned tt, tr')) × IsClean paths tr'
unfolding cleanup poll stop_if stop
cleanup-IsClean w paths tr = elim (Bool-cases (w.running tr)) [
  | inr n ↦ rw n (
    removals paths (polled false ∷ tr),
    remove_all-eq w paths (polled false ∷ tr),
    clean was_dead,
  )
  | inl y ↦ elim (Bool-cases (w.stops_in_time (terminated ∷ polled true ∷ tr))) [
    | inl s ↦
        rw (y, s)
          (_, remove_all-eq w paths (waited true ∷ terminated ∷ polled true ∷ tr), clean told)
    | inr k ↦
        rw (y, k)
          (
            _,
            remove_all-eq w paths (killed ∷ waited false ∷ terminated ∷ polled true ∷ tr),
            clean shot,
          )
  ]
]

module _ (w : World) (paths : List Text) where
  pub fail-EndsClean :
      (A : Type 0) (r : Reason) (tr : Trace) → EndsClean paths (fail w {A = A} paths r tr)
  unfolding fail
  fail-EndsClean A r tr = let (tr', e, c) = cleanup-IsClean w paths tr in rw e c

  pub check-EndsClean :
      (good : Bool) (r : Reason) (tr : Trace) → EndsClean paths (check w paths good r tr)
  unfolding check
  check-EndsClean true r tr = tt
  check-EndsClean false r tr = fail-EndsClean _ r tr

-- A script that leaves by `cleanup` whatever has happened before.
pub record Tidy (paths : List Text) {A : Type 0} (m : Script A) : Type 0 where
  pub tidy : (tr : Trace) → EndsClean paths (m tr)

continue_-EndsClean :
    {A B : Type 0} (paths : List Text) (f : A → Script B) (x : Outcome A × Trace)
    → EndsClean paths x
    → ((a : A) → Tidy paths (f a))
    → EndsClean paths (continue_ f x)
continue_-EndsClean paths f (returned a, tr) h k = (k a).tidy tr
continue_-EndsClean paths f (exited r, tr) h k = h
continue_-EndsClean paths f (raised, tr) h k = tt

module _ {paths : List Text} where
  pub bind-Tidy :
      {A B : Type 0} (m : Script A) (f : A → Script B)
      → Tidy paths m
      → ((a : A) → Tidy paths (f a))
      → Tidy paths (m >>= f)
  bind-Tidy m f h k = record { tidy = λ tr. continue_-EndsClean paths f (m tr) (h.tidy tr) k }

  pub then-Tidy :
      {B : Type 0} (m : Script (Unit {0})) (k : Script B)
      → Tidy paths m
      → Tidy paths k
      → Tidy paths (m >> k)
  then-Tidy m k h l = record {
    tidy = λ tr. continue_-EndsClean paths (λ u. k) (m tr) (h.tidy tr) (λ u. l);
  }

  pub give-Tidy : {A : Type 0} (a : A) → Tidy paths (give a)
  give-Tidy a = record { tidy = λ tr. tt }

  pub act-Tidy : (e : Event) → Tidy paths (act e)
  act-Tidy e = record { tidy = λ tr. tt }

  pub poll-Tidy : (w : World) → Tidy paths (poll w)
  unfolding poll
  poll-Tidy w = record { tidy = λ tr. tt }

  pub connect-Tidy : (w : World) (c : Conn) → Tidy paths (connect w c)
  unfolding connect
  connect-Tidy w c = record {
    tidy = λ tr. elim (Bool-cases (w.accepts c tr)) [ inl e ↦ rw e tt | inr e ↦ rw e tt ];
  }

  pub send-Tidy : (w : World) (c : Conn) (s : Bytes) → Tidy paths (send w c s)
  unfolding send
  send-Tidy w c s = record {
    tidy = λ tr. elim (Bool-cases (w.delivers c tr)) [ inl e ↦ rw e tt | inr e ↦ rw e tt ];
  }

  pub recv-Tidy :
      (w : World) (c : Conn) (needle : Bytes) (timeout : ℕ) → Tidy paths (recv w c needle timeout)
  unfolding recv
  recv-Tidy w c needle timeout = record {
    tidy = λ tr. elim (Option-cases (w.chunks c tr)) [ inl e ↦ rw e tt | inr (cs, e) ↦ rw e tt ];
  }

  pub ws_recv-Tidy :
      (w : World) (c : Conn) (needle : Bytes) (timeout : ℕ)
      → Tidy paths (ws_recv w c needle timeout)
  unfolding ws_recv
  ws_recv-Tidy w c needle timeout = record {
    tidy = λ tr. elim (Option-cases (w.chunks c tr)) [ inl e ↦ rw e tt | inr (cs, e) ↦ rw e tt ];
  }

  pub check-Tidy : (w : World) (good : Bool) (r : Reason) → Tidy paths (check w paths good r)
  check-Tidy w good r = record { tidy = check-EndsClean w paths good r }

  pub fail-Tidy : {A : Type 0} (w : World) (r : Reason) → Tidy paths (fail w {A = A} paths r)
  fail-Tidy {A} w r = record { tidy = fail-EndsClean w paths A r }

caught-EndsClean :
    {A : Type 0} (paths : List Text) (h : Script A) (x : Outcome A × Trace)
    → Tidy paths h
    → EndsClean paths x
    → EndsClean paths (caught h x)
caught-EndsClean paths h (returned a, tr) l k = tt
caught-EndsClean paths h (exited r, tr) l k = k
caught-EndsClean paths h (raised, tr) l k = l.tidy tr

pub cleanup-Tidy : {paths : List Text} (w : World) → Tidy paths (cleanup w paths)
cleanup-Tidy {paths} w = record {
  tidy = λ tr. let (tr', e, c) = cleanup-IsClean w paths tr in rw e tt;
}

pub remove_all-Tidy :
    {paths : List Text} (w : World) (ps : List Text) → Tidy paths (remove_all w ps)
remove_all-Tidy w ps = record { tidy = λ tr. rw (remove_all-eq w ps tr) tt }

pub pid-Tidy : {paths : List Text} (w : World) → Tidy paths (pid w)
unfolding pid
pid-Tidy w = record { tidy = λ tr. tt }

pub log_text-Tidy : {paths : List Text} (w : World) → Tidy paths (log_text w)
unfolding log_text
log_text-Tidy w = record { tidy = λ tr. tt }

or_raise-EndsClean :
    {A : Type 0} (paths : List Text) (o : Option A) (tr : Trace) → EndsClean paths (or_raise o tr)
or_raise-EndsClean paths none tr = tt
or_raise-EndsClean paths (some a) tr = tt

pub frame-Tidy : {paths : List Text} (w : World) (payload : Bytes) → Tidy paths (frame w payload)
unfolding frame
frame-Tidy {paths} w payload = record {
  tidy = λ tr. or_raise-EndsClean paths (ws_frame (w.random 4 tr) payload) tr;
}

pub catch-Tidy :
    {A : Type 0} {paths : List Text} (m h : Script A)
    → Tidy paths m
    → Tidy paths h
    → Tidy paths (catch m h)
catch-Tidy {paths} m h k l = record { tidy = λ tr. caught-EndsClean paths h (m tr) l (k.tidy tr) }

-- The end of a run: it has cleaned up, or found no binary and started nothing, or an exception of
-- a socket has ended it.
abbrev pub LeavesClean : List Text → Outcome ℕ × Trace → Type 0
LeavesClean paths (returned n, tr) = IsClean paths tr
LeavesClean paths (exited r, tr) = ((r ≡ no_binary) × (tr ≡ removals paths [])) ⊎ IsClean paths tr
LeavesClean paths (raised, tr) = Unit

pub leaves :
    (paths : List Text) (x : Outcome ℕ × Trace)
    → EndsClean paths x
    → ((n : ℕ) (after : Trace) → x ≡ (returned n, after) → IsClean paths after)
    → LeavesClean paths x
leaves paths (returned n, tr) h k = k n tr refl
leaves paths (exited r, tr) h k = inr h
leaves paths (raised, tr) h k = tt

pub fail_early-LeavesClean :
    (w : World) (paths : List Text) → LeavesClean paths (fail_early w {A = ℕ} paths no_binary [])
unfolding fail_early
fail_early-LeavesClean w paths =
    subst (λ x. LeavesClean paths (continue_ (λ u tr. (exited no_binary, tr)) x))
      (sym (remove_all-eq w paths [])) (inl (refl, refl))

-- A rule for each way to build a script.
pub ruleset tidy_rules = (
  then-Tidy, bind-Tidy, catch-Tidy, give-Tidy, act-Tidy, poll-Tidy, connect-Tidy, send-Tidy,
  recv-Tidy, ws_recv-Tidy, check-Tidy, fail-Tidy, cleanup-Tidy, remove_all-Tidy, pid-Tidy,
  log_text-Tidy, frame-Tidy,
)
