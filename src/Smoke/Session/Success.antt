-- ===== src/Smoke/Session/Success.antt =====
-- What the return of a script says of what happened in it. Events are never taken back.
use orochi.Prelude.{
  ℕ, Option, none, some, Bool, true, false, List, ◌∷◌, ◌≡◌, inl, inr, refl, Bool-cases,
}
use orochi.Text.{Text}
use orochi.Smoke.{Bytes}
use orochi.Smoke.Session.{
  Conn, sent, received, Trace, Reason, Outcome, returned, exited, raised, heard, Script, World,
  continue_, caught, catch, send, cleanup, fail, check,
}

-- A chain that returns has returned at each step.
module _ {A B P : Type 0} (f : A → Script B) {b : B} {after : Trace} where
  continue_-returned :
      (x : Outcome A × Trace)
      → continue_ f x ≡ (returned b, after)
      → ((a : A) (now : Trace) → x ≡ (returned a, now) → f a now ≡ (returned b, after) → P)
      → P
  continue_-returned (returned a, now) h k = k a now refl h
  continue_-returned (exited r, now) h k = cc
  continue_-returned (raised, now) h k = cc

  pub returned-elim :
      (m : Script A) {before : Trace}
      → continue_ f (m before) ≡ (returned b, after)
      → ((a : A) (now : Trace) → m before ≡ (returned a, now) → f a now ≡ (returned b, after) → P)
      → P
  returned-elim m {before} h k = continue_-returned (m before) h k

pub exits :
    {A : Type 0} (r : Reason) (x : Outcome (Unit {0}) × Trace) {a : A} {after : Trace}
    → continue_ {B = A} (λ u tr. (exited r, tr)) x ≡ (returned a, after)
    → ⊥
exits r (returned a, now) h = cc
exits r (exited q, now) h = cc
exits r (raised, now) h = cc

-- What a check that returns has found.
pub check-good :
    (w : World) (ps : List Text) (good : Bool) (r : Reason) {before after : Trace}
    → check w ps good r before ≡ (returned tt, after)
    → (good ≡ true) × (after ≡ before)
unfolding check fail
check-good w ps true r h = (refl, cc)
check-good w ps false r {before} h = absurd (exits r (cleanup w ps before) h)

-- A delivery is the next event.
pub send-eq :
    (w : World) (c : Conn) (s : Bytes) (before : Trace) {u : Unit {0}} {after : Trace}
    → send w c s before ≡ (returned u, after)
    → sent c s ∷ before ≡ after
unfolding send
send-eq w c s before h = elim (Bool-cases (w.delivers c before)) [
  | inl y ↦ cc (h, y)
  | inr n ↦ cc (h, n)
]

-- A reception is the next event.
pub heard-eq :
    (c : Conn) (needle : Bytes) (timeout : ℕ) (read : List Bytes → Text) (o : Option (List Bytes))
    (before : Trace) {answer : Text} {after : Trace}
    → heard c needle timeout read o before ≡ (returned answer, after)
    → received c needle timeout answer ∷ before ≡ after
heard-eq c needle timeout read none before h = cc
heard-eq c needle timeout read (some cs) before h = cc

caught-fail :
    {A : Type 0} (w : World) (ps : List Text) (r : Reason) (x : Outcome A × Trace) {a : A}
    {after : Trace}
    → caught (fail w {A = A} ps r) x ≡ (returned a, after)
    → x ≡ (returned a, after)
unfolding fail
caught-fail w ps r (returned b, now) h = h
caught-fail w ps r (exited q, now) h = cc
caught-fail w ps r (raised, now) h = absurd (exits r (cleanup w ps now) h)

-- If what handles an exception exits, a return is that of the script itself.
pub catch-fail :
    {A : Type 0} (w : World) (ps : List Text) (r : Reason) (m : Script A) (before : Trace) {a : A}
    {after : Trace}
    → catch m (fail w {A = A} ps r) before ≡ (returned a, after)
    → m before ≡ (returned a, after)
catch-fail w ps r m before h = caught-fail w ps r (m before) h
