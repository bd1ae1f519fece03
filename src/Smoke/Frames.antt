-- ===== src/Smoke/Frames.antt =====
-- The inner loop of `ws_recv_text`: it may be stopped and taken up again where bytes are missing.
pub mod Sent
use orochi.Prelude.{
  ℕ, zero, suc, ◌+◌, ◌%◌, ◌≤◌, ◌<◌, Option, none, some, List, [], ◌∷◌, ◌++◌, ◌≡◌, refl, sym, ap,
  ◌∙◌, inl, inr, arith, Bool, true, false, if◌then◌else◌, ◌==◌, Bool-cases, Option-cases, length,
  length-append, append_assoc, ◌>>=◌,
}
use orochi.Smoke.{
  Bytes, Frame, Received, from_bytes, split_at, wide, length_field, next_frame, shown, drain_loop,
  drain,
}

-- A chain that gives a result has one at its first step.
bind-some {ℓ κ} :
    {A : Type ℓ} {B : Type κ} (o : Option A) (f : A → Option B) {b : B}
    → (o >>= f) ≡ some b
    → (a : A) × (o ≡ some a) × (f a ≡ some b)
bind-some none f h = absurd (ground arith)
bind-some (some a) f h = (a, refl, h)

-- The same result with more bytes behind it.
abbrev behind {ℓ} : {A : Type ℓ} → Bytes → Option (A × Bytes) → Option (A × Bytes)
behind t none = none
behind t (some (a, r)) = some (a, r ++ t)

split_at-append :
    (n : ℕ) (s t : Bytes) {p : Bytes × Bytes}
    → split_at n s ≡ some p
    → split_at n (s ++ t) ≡ behind t (some p)
unfolding split_at
split_at-append zero s t h = ap (behind t) h
split_at-append (suc n) [] t h = absurd (ground arith)
split_at-append (suc n) (c ∷ s) t h =
    let r = bind-some (split_at n s) _ h in rw (split_at-append n s t r.1) (ap (behind t) r.2)

wide-append :
    (k : ℕ) (s t : Bytes) {p : ℕ × Bytes} → wide k s ≡ some p → wide k (s ++ t) ≡ behind t (some p)
unfolding wide
wide-append k s t h =
    let r = bind-some (split_at k s) _ h in rw (split_at-append k s t r.1) (ap (behind t) r.2)

length_field-append :
    (n : ℕ) (s t : Bytes) {p : ℕ × Bytes}
    → length_field n s ≡ some p
    → length_field n (s ++ t) ≡ behind t (some p)
unfolding length_field
length_field-append n s t {p} h = by_form (n == 126) (n == 127) h
  where
    by_form :
        (a b : Bool)
        → (if a then wide 2 s else if b then wide 8 s else some (n, s)) ≡ some p
        → (if a then wide 2 (s ++ t) else if b then wide 8 (s ++ t) else some (n, s ++ t))
          ≡ behind t (some p)
    by_form true b e = wide-append 2 s t e
    by_form false true e = wide-append 8 s t e
    by_form false false e = ap (behind t) e

pub next_frame-append :
    (s t : Bytes) {p : Frame × Bytes}
    → next_frame s ≡ some p
    → next_frame (s ++ t) ≡ behind t (some p)
unfolding next_frame
next_frame-append [] t h = absurd (ground arith)
next_frame-append (b0 ∷ []) t h = absurd (ground arith)
next_frame-append (b0 ∷ b1 ∷ s) t h =
    let l = bind-some (length_field (b1 % 128) s) _ h in
    let q = bind-some (split_at l.0.0 l.0.1) _ l.2 in
    rw (length_field-append _ s t l.1, split_at-append l.0.0 l.0.1 t q.1) (ap (behind t) q.2)

-- What is left behind a result.
abbrev rest_of {ℓ} : {A : Type ℓ} → Option (A × Bytes) → Bytes
rest_of none = []
rest_of (some (a, r)) = r

rest_of-bind {ℓ κ} :
    {A : Type ℓ} {B : Type κ} (m : ℕ) (o : Option (A × Bytes)) (f : A × Bytes → Option (B × Bytes))
    → length (rest_of o) ≤ m
    → ((a : A) (r : Bytes) → length r ≤ m → length (rest_of (f (a, r))) ≤ m)
    → length (rest_of (o >>= f)) ≤ m
rest_of-bind m none f h k = h
rest_of-bind m (some (a, r)) f h k = k a r h

split_at-rest : (m n : ℕ) (s : Bytes) → length s ≤ m → length (rest_of (split_at n s)) ≤ m
unfolding split_at
split_at-rest m zero s h = h
split_at-rest m (suc n) [] h = omega arith
split_at-rest m (suc n) (c ∷ s) h =
    rest_of-bind m (split_at n s) _ (split_at-rest m n s (omega arith)) (λ a r i. i)

wide-rest : (m k : ℕ) (s : Bytes) → length s ≤ m → length (rest_of (wide k s)) ≤ m
unfolding wide
wide-rest m k s h = rest_of-bind m (split_at k s) _ (split_at-rest m k s h) (λ a r i. i)

length_field-rest : (m n : ℕ) (s : Bytes) → length s ≤ m → length (rest_of (length_field n s)) ≤ m
unfolding length_field
length_field-rest m n s h = by_form (n == 126) (n == 127)
  where
    by_form :
        (a b : Bool)
        → length (rest_of (if a then wide 2 s else if b then wide 8 s else some (n, s))) ≤ m
    by_form true b = wide-rest m 2 s h
    by_form false true = wide-rest m 8 s h
    by_form false false = h

-- A round takes two bytes at least.
next_frame-rest :
    (s : Bytes) (f : Frame) (rest : Bytes)
    → next_frame s ≡ some (f, rest)
    → 2 + length rest ≤ length s
unfolding next_frame
next_frame-rest [] f rest h = absurd (ground arith)
next_frame-rest (b0 ∷ []) f rest h = absurd (ground arith)
next_frame-rest (b0 ∷ b1 ∷ s) f rest h =
    let m = length s in
    let i : length (rest_of (next_frame (b0 ∷ b1 ∷ s))) ≤ m =
      rest_of-bind m (length_field (b1 % 128) s) _ (length_field-rest m (b1 % 128) s (omega arith))
        (λ n r j. rest_of-bind m (split_at n r) _ (split_at-rest m n r j) (λ p q k. k)) in
    omega (arith, i, ap (λ o. length (rest_of o)) h)

next_frame-short : (s : Bytes) → length s ≤ 1 → next_frame s ≡ none
unfolding next_frame
next_frame-short [] h = refl
next_frame-short (b0 ∷ []) h = refl
next_frame-short (b0 ∷ b1 ∷ s) h = absurd (omega arith)

-- What is received with a frame.
abbrev pub taken : Received → Frame → Bytes → Received
taken st f rest = record { buf = rest; text = st.text ++ shown f }

drain_loop-none : (n : ℕ) (st : Received) → next_frame st.buf ≡ none → drain_loop n st ≡ st
unfolding drain_loop
drain_loop-none zero st e = refl
drain_loop-none (suc n) st e = rw (e, drain_loop) refl

drain_loop-some :
    (n : ℕ) (st : Received) (f : Frame) (rest : Bytes)
    → next_frame st.buf ≡ some (f, rest)
    → drain_loop (suc n) st ≡ drain_loop n (taken st f rest)
unfolding drain_loop
drain_loop-some n st f rest e = rw (e, drain_loop) refl

-- Any fuel that is enough gives the same.
drain_loop-fuel :
    (m n : ℕ) (st : Received)
    → length st.buf ≤ m
    → length st.buf ≤ n
    → drain_loop m st ≡ drain_loop n st
drain_loop-fuel zero n st h k =
    let e = next_frame-short st.buf (omega arith) in
    drain_loop-none 0 st e ∙ sym (drain_loop-none n st e)
drain_loop-fuel (suc m) zero st h k =
    let e = next_frame-short st.buf (omega arith) in
    drain_loop-none (suc m) st e ∙ sym (drain_loop-none 0 st e)
drain_loop-fuel (suc m) (suc n) st h k = elim (Option-cases (next_frame st.buf)) [
  | inl e ↦ drain_loop-none (suc m) st e ∙ sym (drain_loop-none (suc n) st e)
  | inr ((f, rest), e) ↦
      let i = next_frame-rest st.buf f rest e in
      let j = drain_loop-fuel m n (taken st f rest) (omega arith) (omega arith) in
      drain_loop-some m st f rest e ∙ (j ∙ sym (drain_loop-some n st f rest e))
]

pub drain-none : (st : Received) → next_frame st.buf ≡ none → drain st ≡ st
unfolding drain
drain-none st e = drain_loop-none (length st.buf) st e

pub drain-some :
    (st : Received) (f : Frame) (rest : Bytes)
    → next_frame st.buf ≡ some (f, rest)
    → drain st ≡ drain (taken st f rest)
unfolding drain
drain-some st f rest e =
    let n = length st.buf in
    let i = next_frame-rest st.buf f rest e in
    drain_loop-fuel n (suc n) st (omega arith) (omega arith)
    ∙ (drain_loop-some n st f rest e
        ∙ drain_loop-fuel n (length rest) (taken st f rest) (omega arith) (omega arith))

-- More bytes at the end of the buffer.
abbrev pub fed : Bytes → Received → Received
fed t st = record st { buf = st.buf ++ t }

-- The frames that are complete may be taken out before the next bytes arrive.
drain_loop-fed :
    (n : ℕ) (st : Received) (t : Bytes)
    → length st.buf ≤ n
    → drain (fed t (drain_loop n st)) ≡ drain (fed t st)
drain_loop-fed zero st t h = rw (drain_loop-none 0 st (next_frame-short st.buf (omega arith))) refl
drain_loop-fed (suc n) st t h = elim (Option-cases (next_frame st.buf)) [
  | inl e ↦ rw (drain_loop-none (suc n) st e) refl
  | inr ((f, rest), e) ↦
      let i = next_frame-rest st.buf f rest e in
      let j = drain_loop-fed n (taken st f rest) t (omega arith) in
      let k = drain-some (fed t st) f (rest ++ t) (next_frame-append st.buf t e) in
      rw (drain_loop-some n st f rest e) (j ∙ sym k)
]

pub drain-fed : (st : Received) (t : Bytes) → drain (fed t (drain st)) ≡ drain (fed t st)
unfolding drain
drain-fed st t = drain_loop-fed (length st.buf) st t (omega arith)
