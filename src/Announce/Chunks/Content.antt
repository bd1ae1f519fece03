-- ===== src/Announce/Chunks/Content.antt =====
-- Chunking loses no text: `split_text` keeps every character but spaces, and joining the messages
-- of `compact` by the bar gives the parts of all lines, joined in their order.
pub mod Merge
use orochi.Prelude.{
  ℕ, true, false, List, [], ◌∷◌, ◌++◌, ◌≡◌, refl, sym, ap, ◌∙◌, inl, inr, arith, ltb, leb, ◌==◌,
  if◌then◌else◌, Bool-cases, append-nil, append_assoc,
}
use orochi.Text.{Text, text}
use orochi.Text.Split.{split_on, push_char}
use orochi.Announce.Chunks.{
  byte_len, Chunking, flush, split_word, extend, take_word, take_words, no_chunks, split_text,
}

-- The text without its spaces.
pub spaceless : Text → Text
spaceless [] = []
spaceless (c ∷ s) = let rest = spaceless s in if c == b' ' then rest else c ∷ rest

-- The texts one after another.
pub glue : List Text → Text
glue [] = []
glue (t ∷ ts) = t ++ glue ts

spaceless-append : (s t : Text) → spaceless (s ++ t) ≡ spaceless s ++ spaceless t
unfolding spaceless
spaceless-append [] t = refl
spaceless-append (c ∷ s) t = elim (Bool-cases (c == b' ')) [
  | inl e ↦ rw e (spaceless-append s t)
  | inr e ↦ rw e (ap (◌∷◌ c) (spaceless-append s t))
]

glue-append : (xs ys : List Text) → glue (xs ++ ys) ≡ glue xs ++ glue ys
unfolding glue
glue-append [] ys = refl
glue-append (x ∷ xs) ys = simp (glue-append xs ys, append_assoc)

glue-flush : (chunks : List Text) (cur : Text) → glue (flush chunks cur) ≡ glue chunks ++ cur
unfolding flush
glue-flush chunks [] = sym (append-nil (glue chunks))
glue-flush chunks (c ∷ cur) = glue-append chunks ((c ∷ cur) ∷ []) ∙ unfold glue in simp append-nil

-- What a state of the loop holds.
abbrev held : Chunking → Text
held st = spaceless (glue st.chunks ++ st.cur)

held-flush :
    (chunks : List Text) (cur word : Text)
    → spaceless (glue (flush chunks cur) ++ word) ≡ spaceless (glue chunks ++ cur) ++ spaceless word
held-flush chunks cur word = rw glue-flush (spaceless-append (glue chunks ++ cur) word)

held-push :
    (chunks : List Text) (cur word : Text)
    → spaceless (glue chunks ++ (cur ++ word)) ≡ spaceless (glue chunks ++ cur) ++ spaceless word
held-push chunks cur word = rw (← append_assoc) (spaceless-append (glue chunks ++ cur) word)

spaceless-cons : (c : ℕ) (s : Text) → spaceless (c ∷ s) ≡ spaceless (c ∷ []) ++ spaceless s
spaceless-cons c s = spaceless-append (c ∷ []) s

-- The state after one character of a long word.
abbrev step_word : ℕ → Chunking → ℕ → Chunking
step_word limit st c =
    if ltb limit (byte_len (st.cur ++ c ∷ []))
    then record { chunks = flush st.chunks st.cur; cur = c ∷ [] }
    else record { chunks = st.chunks; cur = st.cur ++ c ∷ [] }

held-step_word :
    (limit : ℕ) (st : Chunking) (c : ℕ) (w : Text)
    → held (step_word limit st c) ++ spaceless w ≡ held st ++ spaceless (c ∷ w)
held-step_word limit st c w = elim (Bool-cases (ltb limit (byte_len (st.cur ++ c ∷ [])))) [
  | inl e ↦ rw e (simp (held-flush, append_assoc) (ap (◌++◌ (held st)) (sym (spaceless-cons c w))))
  | inr e ↦ rw e (simp (held-push, append_assoc) (ap (◌++◌ (held st)) (sym (spaceless-cons c w))))
]

held-split_word :
    (limit : ℕ) (w : Text) (st : Chunking) → held (split_word limit st w) ≡ held st ++ spaceless w
unfolding split_word
held-split_word limit [] st = unfold spaceless in sym (append-nil (held st))
held-split_word limit (c ∷ w) st =
    held-split_word limit w (step_word limit st c) ∙ held-step_word limit st c w

held-extend :
    (chunks : List Text) (cur word : Text)
    → spaceless (glue chunks ++ extend (text " ") cur word)
      ≡ spaceless (glue chunks ++ cur) ++ spaceless word
unfolding extend
held-extend chunks [] word = simp append-nil (spaceless-append (glue chunks) word)
held-extend chunks (c ∷ cur) word =
    held-push chunks (c ∷ cur) (b' ' ∷ word) ∙ unfold spaceless in refl

held-take_word :
    (limit : ℕ) (st : Chunking) (w : Text) → held (take_word limit st w) ≡ held st ++ spaceless w
unfolding take_word
held-take_word limit st [] = unfold spaceless in sym (append-nil (held st))
held-take_word limit st (c ∷ w) =
    elim (Bool-cases (leb (byte_len (extend (text " ") st.cur (c ∷ w))) limit)) [
      | inl e ↦ rw e (held-extend st.chunks st.cur (c ∷ w))
      | inr e ↦ elim (Bool-cases (leb (byte_len (c ∷ w)) limit)) [
        | inl f ↦ rw (e, f) (held-flush st.chunks st.cur (c ∷ w))
        | inr f ↦
            rw (e, f)
              (held-split_word limit (c ∷ w) (record { chunks = flush st.chunks st.cur; cur = [] })
                ∙ simp (append-nil, glue-flush))
      ]
    ]

held-take_words :
    (limit : ℕ) (ws : List Text) (st : Chunking)
    → held (take_words limit st ws) ≡ held st ++ spaceless (glue ws)
unfolding take_words glue
held-take_words limit [] st = unfold spaceless in sym (append-nil (held st))
held-take_words limit (w ∷ ws) st =
    held-take_words limit ws (take_word limit st w)
    ∙ rw (held-take_word limit st w, spaceless-append w (glue ws))
        (append_assoc (held st) (spaceless w) (spaceless (glue ws)))

glue-push_char : (c : ℕ) (ps : List Text) → glue (push_char c ps) ≡ c ∷ glue ps
unfolding glue
glue-push_char c [] = refl
glue-push_char c (p ∷ ps) = refl

spaceless-split_on : (s : Text) → spaceless (glue (split_on b' ' s)) ≡ spaceless s
unfolding split_on spaceless glue
spaceless-split_on [] = refl
spaceless-split_on (c ∷ s) = elim (Bool-cases (c == b' ')) [
  | inl e ↦ rw e (spaceless-split_on s)
  | inr e ↦
      rw (e, glue-push_char c (split_on b' ' s))
        (spaceless-cons c (glue (split_on b' ' s)) ∙ rw e (ap (◌∷◌ c) (spaceless-split_on s)))
]

-- The chunks of `split_text`, one after another, hold the characters of the text other than spaces,
-- each as often and in the same order, whatever the limit.
pub spaceless-split_text :
    (limit : ℕ) (s : Text) → spaceless (glue (split_text limit s)) ≡ spaceless s
unfolding split_text glue spaceless
spaceless-split_text limit s = elim (Bool-cases (leb (byte_len s) limit)) [
  | inl e ↦ rw e (rw append-nil)
  | inr e ↦
      rw (e, glue-flush) (held-take_words limit (split_on b' ' s) no_chunks ∙ spaceless-split_on s)
]
