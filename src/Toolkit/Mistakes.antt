-- ===== src/Toolkit/Mistakes.antt =====
-- The exceptions that the validator's code never raises: its assertion, the access to the text behind
-- the metadata, and the accesses to keys; and how a chain of steps ends otherwise.
use orochi.Prelude.{true, false, Bool, ◌≡◌, Option, none, some, refl}
use orochi.Toolkit.Checks.{
  Failure, Checked, ok, failed, ◌>>=◌, ◌>>◌, fail_if, or_fail, assertion_error, key_error,
  index_error,
}

-- A defect of the script rather than of the files.
abbrev pub is_mistake : Failure → Bool
is_mistake assertion_error = true
is_mistake index_error = true
is_mistake key_error = true
is_mistake _ = false

-- The step fails, but not so, or what follows it fails.
pub step {ℓ κ} :
    {A : Type ℓ} {B : Type κ} (m : Checked A) (f : A → Checked B) {e : Failure}
    → (m >>= f) ≡ failed e
    → ((e' : Failure) → m ≡ failed e' → is_mistake e' ≡ false)
    → ((a : A) → m ≡ ok a → f a ≡ failed e → is_mistake e ≡ false)
    → is_mistake e ≡ false
step (ok a) f h fine k = k a refl h
step (failed x) f h fine k = cc (h, fine x refl)

-- The test fails, with a message.
pub guard {ℓ} :
    {B : Type ℓ} (c : Bool) (x : Failure) (k : Checked B) {e : Failure}
    → (fail_if c x >> k) ≡ failed e
    → is_mistake x ≡ false
    → (c ≡ false → k ≡ failed e → is_mistake e ≡ false)
    → is_mistake e ≡ false
guard true x k h fine r = cc
guard false x k h fine r = r refl h

pub only_guard :
    (c : Bool) (x : Failure) {e : Failure}
    → fail_if c x ≡ failed e
    → is_mistake x ≡ false
    → is_mistake e ≡ false
only_guard true x h fine = cc
only_guard false x h fine = cc

pub from_ok {ℓ} : {A : Type ℓ} {a : A} {e : Failure} → ok a ≡ failed e → is_mistake e ≡ false
from_ok h = cc

pub or_fail-no_mistake {ℓ} :
    {A : Type ℓ} (o : Option A) (x : Failure) {e : Failure}
    → or_fail o x ≡ failed e
    → is_mistake x ≡ false
    → is_mistake e ≡ false
or_fail-no_mistake none x h fine = cc
or_fail-no_mistake (some a) x h fine = cc
