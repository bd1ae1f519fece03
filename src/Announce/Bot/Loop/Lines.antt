-- ===== src/Announce/Bot/Loop/Lines.antt =====
-- The inner loop of the socket loop takes every complete line out of the buffer and hands it to
-- `handle`.
use orochi.Prelude.{
  ℕ, zero, suc, ◌≤◌, ◌<◌, Option, none, some, [], ◌∷◌, ◌++◌, ◌≡◌, ◌≢◌, refl, subst, List, true, ap,
  inl, inr, arith, Bool, Bool-cases, sym, ◌∙◌, ◌||◌, false, All, Option-cases, length, drop,
}
use orochi.Text.{Text, starts_with}
use orochi.Text.Split.{cut, after_char}
use orochi.Announce.Config.{Config}
use orochi.Announce.World.{World}
use orochi.Announce.Bot.{Bot}
use orochi.Announce.Bot.Handle.{handle}
use orochi.Announce.Bot.Loop.{
  Bytes, LoopState, crlf, handle_line, handle_lines, handle_buffer, receive_data,
}

abbrev behind : Option (Text × Text) → Text
behind none = []
behind (some (a, b)) = b

length-drop_one : (s : Text) → length (drop 1 s) ≤ length s
length-drop_one [] = omega arith
length-drop_one (c ∷ s) = omega arith

behind-after_char : (c : ℕ) (o : Option (Text × Text)) → behind (after_char c o) ≡ behind o
behind-after_char c none = refl
behind-after_char c (some (a, b)) = refl

-- What lies behind a line end is shorter than the whole.
cut-behind :
    (c : ℕ) (s : Bytes)
    → length (behind (cut crlf s)) ≤ length s
    → length (behind (cut crlf (c ∷ s))) ≤ length s
unfolding cut
cut-behind c s h = elim (Bool-cases (starts_with (c ∷ s) crlf)) [
  | inl e ↦ rw e (length-drop_one s)
  | inr e ↦ rw (e, behind-after_char c (cut crlf s)) h
]

cut-le : (s : Bytes) → length (behind (cut crlf s)) ≤ length s
unfolding cut
cut-le [] = omega arith
cut-le (c ∷ s) = omega (arith, cut-behind c s (cut-le s))

cut-shorter : (s raw rest : Bytes) → cut crlf s ≡ some (raw, rest) → length rest < length s
unfolding cut
cut-shorter [] raw rest h = absurd (ground arith)
cut-shorter (c ∷ s) raw rest h =
    omega (arith, cut-behind c s (cut-le s), ap (λ o. length (behind o)) h)

cut-empty : (s : Bytes) → length s ≤ 0 → cut crlf s ≡ none
unfolding cut
cut-empty [] h = refl
cut-empty (c ∷ s) h = absurd (omega arith)

-- No line end stands in the bytes.
abbrev pub NoLineEnd : Bytes → Type 0
NoLineEnd s = (a b : Bytes) → s ≢ a ++ (crlf ++ b)

-- Lines, each with its end, and what stands behind the last end.
abbrev pub glue : List Bytes → Bytes → Bytes
glue [] rest = rest
glue (l ∷ ls) rest = l ++ (crlf ++ glue ls rest)

pub empty-NoLineEnd : NoLineEnd []
empty-NoLineEnd [] b h = cc
empty-NoLineEnd (c ∷ a) b h = cc

-- A line end is found.
cut-glued : (a b : Bytes) → cut crlf (a ++ (crlf ++ b)) ≢ none
unfolding cut starts_with
cut-glued [] b h = cc
cut-glued (c ∷ a) b h = elim (Bool-cases (starts_with (c ∷ a ++ (crlf ++ b)) crlf)) [
  | inl e ↦ ground (arith, e, h)
  | inr e ↦ elim (Option-cases (cut crlf (a ++ (crlf ++ b)))) [
    | inl n ↦ cut-glued a b n
    | inr ((x, y), n) ↦ ground (arith, e, n, h)
  ]
]

cut-NoLineEnd : (s : Bytes) → cut crlf s ≡ none → NoLineEnd s
cut-NoLineEnd s h a b e = cut-glued a b (subst (λ x. cut crlf x ≡ none) e h)

starts_with-crlf : (c : ℕ) (s : Bytes) → starts_with (c ∷ s) crlf ≡ true → c ∷ s ≡ crlf ++ drop 1 s
unfolding starts_with
starts_with-crlf c [] h = absurd (ground arith)
starts_with-crlf c (d ∷ s) h =
    let i : c ≡ 13 = ground arith in let j : d ≡ 10 = ground arith in rw (i, j) refl

crlf-starts_with : (a b : Bytes) → a ≡ crlf ++ b → (t : Bytes) → starts_with (a ++ t) crlf ≡ true
unfolding starts_with
crlf-starts_with a b e t = rw e refl

-- A line stays one behind a byte that does not begin a line end with it.
longer-NoLineEnd :
    (c : ℕ) (a t : Bytes) → starts_with (c ∷ a ++ t) crlf ≡ false → NoLineEnd a → NoLineEnd (c ∷ a)
longer-NoLineEnd c a t e h [] y k = let i = crlf-starts_with (c ∷ a) y k t in cc
longer-NoLineEnd c a t e h (d ∷ x) y k = h x y (ap (drop 1) k)

abbrev ahead : Option (Text × Text) → Text
ahead none = []
ahead (some (a, b)) = a

-- A cut at the first line end.
abbrev Splits : Bytes → Option (Text × Text) → Type 0
Splits s o = (s ≡ ahead o ++ (crlf ++ behind o)) × NoLineEnd (ahead o)

cut-here :
    (c : ℕ) (s : Text) → starts_with (c ∷ s) crlf ≡ true → cut crlf (c ∷ s) ≡ some ([], drop 1 s)
unfolding cut
cut-here c s e = rw e refl

cut-later :
    (c : ℕ) (s : Text)
    → starts_with (c ∷ s) crlf ≡ false
    → cut crlf (c ∷ s) ≡ after_char c (cut crlf s)
unfolding cut
cut-later c s e = rw e refl

apart : {p : Text × Text} → ¬ (none ≡ some p)
apart h = ground arith

-- The first line end is behind a line and in front of the rest.
cut-Splits : (s raw rest : Bytes) → cut crlf s ≡ some (raw, rest) → Splits s (some (raw, rest))
unfolding cut
cut-Splits [] raw rest h = absurd (apart h)
cut-Splits (c ∷ s) raw rest h = elim (Bool-cases (starts_with (c ∷ s) crlf)) [
  | inl e ↦
      subst (Splits (c ∷ s)) (sym (cut-here c s e) ∙ h) (starts_with-crlf c s e, empty-NoLineEnd)
  | inr e ↦ elim (Option-cases (cut crlf s)) [
    | inl n ↦ absurd (apart (sym (cut-later c s e ∙ ap (after_char c) n) ∙ h))
    | inr ((a, b), n) ↦
        let (same_bytes, line) = cut-Splits s a b n in
        subst (Splits (c ∷ s)) (sym (cut-later c s e ∙ ap (after_char c) n) ∙ h) (
          ap (λ x. c ∷ x) same_bytes,
          longer-NoLineEnd c a (crlf ++ b)
              (subst (λ x. starts_with (c ∷ x) crlf ≡ false) same_bytes e) line,
        )
  ]
]

module _ (decode : Bytes → Text) (cfg : Config) (w : World) where
  -- The lines are handled one after another.
  abbrev pub handle_each : List Bytes → Bool → Bot → Bool × Bot
  handle_each [] joined b = (joined, b)
  handle_each (l ∷ ls) joined b =
      let (b', j) = handle cfg w (decode l) joined b in handle_each ls (joined || j) b'

  -- The state of the loop after the lines, with what is left in the buffer.
  abbrev pub after_lines : List Bytes → Bytes → Bool → Bot → LoopState
  after_lines ls rest joined b =
      let (joined', b') = handle_each ls joined b in
      record { buf = rest; joined = joined'; bot = b' }

  -- What the loop does with the lines of its buffer.
  abbrev Handled : LoopState → LoopState → Type 0
  Handled st st' =
      (ls : List Bytes) × (st.buf ≡ glue ls st'.buf)
      × All NoLineEnd ls
      × NoLineEnd st'.buf
      × (st' ≡ after_lines ls st'.buf st.joined st.bot)

  handle_lines-Handled :
      (fuel : ℕ) (st : LoopState)
      → length st.buf ≤ fuel
      → Handled st (handle_lines decode cfg w fuel st)
  unfolding handle_lines handle_line
  handle_lines-Handled zero st h = ([], refl, tt, cut-NoLineEnd st.buf (cut-empty st.buf h), refl)
  handle_lines-Handled (suc fuel) st h = elim (Option-cases (cut crlf st.buf)) [
    | inl e ↦ rw (e, handle_lines) ([], refl, tt, cut-NoLineEnd st.buf e, refl)
    | inr ((raw, rest), e) ↦
        let i = cut-shorter st.buf raw rest e in
        let (same_bytes, line) = cut-Splits st.buf raw rest e in
        let (ls, glued, good, last, r) =
          handle_lines-Handled fuel (handle_line decode cfg w raw rest st) (omega arith) in
        rw (e, handle_lines)
          (raw ∷ ls, same_bytes ∙ ap (λ x. raw ++ (crlf ++ x)) glued, (line, good), last, r)
  ]

  -- Whenever bytes are received, the buffer and the new bytes are lines, each with its end, and a
  -- rest that stays in the buffer, where no line end stands inside a line or in the rest; `handle`
  -- was called for every one of these lines, in their order, after `last_rx` was set, and nothing
  -- else has changed the state.
  pub receive_data-handle_each :
      (d : Bytes) (st : LoopState)
      → (ls : List Bytes) × (rest : Bytes) × (st.buf ++ d ≡ glue ls rest)
        × All NoLineEnd ls
        × NoLineEnd rest
        × (receive_data decode cfg w d st
            ≡ after_lines ls rest st.joined (record st.bot { last_rx = w.now }))
  unfolding receive_data handle_buffer
  receive_data-handle_each d st =
      let now_ = record st { buf = st.buf ++ d; bot = record st.bot { last_rx = w.now } } in
      let (ls, glued, good, last, r) =
        handle_lines-Handled (length (st.buf ++ d)) now_ (omega arith) in
      (ls, (handle_lines decode cfg w (length (st.buf ++ d)) now_).buf, glued, good, last, r)
