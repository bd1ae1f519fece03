-- ===== src/Announce/Chunks/Content/Merge.antt =====
-- `compact` keeps the parts and their order, and no chunk is empty.
use orochi.Prelude.{
  ℕ, false, List, [], ◌∷◌, ◌++◌, ◌≡◌, refl, ap, ◌∙◌, inl, inr, ltb, leb, Bool-cases, append-nil,
  append_assoc, All, All-append,
}
use orochi.Text.{Text, text, is_empty, join}
use orochi.Text.Split.{split_on, squeeze, emit_word, clean_lines}
use orochi.Announce.Chunks.{
  byte_len, Chunking, flush, split_word, extend, take_word, take_words, no_chunks, split_text, bar,
  take_part, take_parts, parts_of, compact,
}

abbrev pub IsFilled : Text → Type 0
IsFilled s = is_empty s ≡ false

flush-IsFilled :
    (chunks : List Text) (cur : Text) → All IsFilled chunks → All IsFilled (flush chunks cur)
unfolding flush
flush-IsFilled chunks [] h = h
flush-IsFilled chunks (c ∷ cur) h = All-append IsFilled chunks ((c ∷ cur) ∷ []) h (refl, tt)

module _ (limit : ℕ) where
  abbrev AllFilled : Chunking → Type 0
  AllFilled st = All IsFilled st.chunks

  split_word-AllFilled :
      (w : Text) (st : Chunking) → AllFilled st → AllFilled (split_word limit st w)
  unfolding split_word
  split_word-AllFilled [] st h = h
  split_word-AllFilled (c ∷ w) st h = elim (Bool-cases (ltb limit (byte_len (st.cur ++ c ∷ [])))) [
    | inl e ↦ rw (e, split_word) (split_word-AllFilled w _ (flush-IsFilled st.chunks st.cur h))
    | inr e ↦ rw (e, split_word) (split_word-AllFilled w _ h)
  ]

  take_word-AllFilled : (st : Chunking) (w : Text) → AllFilled st → AllFilled (take_word limit st w)
  unfolding take_word
  take_word-AllFilled st [] h = h
  take_word-AllFilled st (c ∷ w) h =
      let flushed = flush-IsFilled st.chunks st.cur h in
      elim (Bool-cases (leb (byte_len (extend (text " ") st.cur (c ∷ w))) limit)) [
        | inl e ↦ rw e h
        | inr e ↦ elim (Bool-cases (leb (byte_len (c ∷ w)) limit)) [
          | inl f ↦ rw (e, f) flushed
          | inr f ↦ rw (e, f) (split_word-AllFilled (c ∷ w) _ flushed)
        ]
      ]

  take_words-AllFilled :
      (ws : List Text) (st : Chunking) → AllFilled st → AllFilled (take_words limit st ws)
  unfolding take_words
  take_words-AllFilled [] st h = h
  take_words-AllFilled (w ∷ ws) st h = take_words-AllFilled ws _ (take_word-AllFilled st w h)

  pub split_text-IsFilled : (s : Text) → IsFilled s → All IsFilled (split_text limit s)
  unfolding split_text
  split_text-IsFilled s h = elim (Bool-cases (leb (byte_len s) limit)) [
    | inl e ↦ rw e (h, tt)
    | inr e ↦ rw e (flush-IsFilled _ _ (take_words-AllFilled (split_on b' ' s) no_chunks tt))
  ]

  parts_of-IsFilled : (ls : List Text) → All IsFilled ls → All IsFilled (parts_of limit ls)
  unfolding parts_of
  parts_of-IsFilled [] h = tt
  parts_of-IsFilled (l ∷ ls) h =
      All-append IsFilled (split_text limit l) _ (split_text-IsFilled l h.0)
        (parts_of-IsFilled ls h.1)

emit_word-IsFilled : (w : Text) (ls : List Text) → All IsFilled ls → All IsFilled (emit_word w ls)
emit_word-IsFilled [] ls h = h
emit_word-IsFilled (c ∷ w) ls h = (refl, h)

clean_lines-IsFilled : (ls : List Text) → All IsFilled (clean_lines ls)
unfolding clean_lines
clean_lines-IsFilled [] = tt
clean_lines-IsFilled (l ∷ ls) = emit_word-IsFilled (squeeze l) _ (clean_lines-IsFilled ls)

join-merge :
    (sep a b : Text) (xs ys : List Text)
    → join sep (xs ++ (a ++ (sep ++ b)) ∷ ys) ≡ join sep (xs ++ (a ∷ b ∷ ys))
unfolding join
join-merge sep a b [] [] = refl
join-merge sep a b [] (y ∷ ys) = simp append_assoc
join-merge sep a b (x ∷ []) ys = ap (λ r. x ++ (sep ++ r)) (join-merge sep a b [] ys)
join-merge sep a b (x ∷ z ∷ xs) ys = ap (λ r. x ++ (sep ++ r)) (join-merge sep a b (z ∷ xs) ys)

flush-IsFilled_eq : (chunks : List Text) (p : Text) → IsFilled p → flush chunks p ≡ chunks ++ p ∷ []
unfolding flush
flush-IsFilled_eq chunks [] h = cc
flush-IsFilled_eq chunks (c ∷ p) h = refl

join-extend :
    (chunks ps : List Text) (cur p : Text)
    → IsFilled p
    → join bar (flush chunks (extend bar cur p) ++ ps) ≡ join bar (flush chunks cur ++ (p ∷ ps))
unfolding extend
join-extend chunks ps [] p h =
    rw (flush-IsFilled_eq chunks p h, append_assoc) (unfold flush in refl)
join-extend chunks ps (c ∷ cur) p h =
    unfold flush in simp append_assoc (join-merge bar (c ∷ cur) p chunks ps)

join-take_part :
    (limit : ℕ) (st : Chunking) (p : Text) (ps : List Text)
    → IsFilled p
    → join bar (flush (take_part limit st p).chunks (take_part limit st p).cur ++ ps)
      ≡ join bar (flush st.chunks st.cur ++ (p ∷ ps))
unfolding take_part
join-take_part limit st p ps h = elim (Bool-cases (leb (byte_len (extend bar st.cur p)) limit)) [
  | inl e ↦ rw e (join-extend st.chunks ps st.cur p h)
  | inr e ↦ rw (e, flush-IsFilled_eq (flush st.chunks st.cur) p h, append_assoc)
]

join-take_parts :
    (limit : ℕ) (ps : List Text) (st : Chunking)
    → All IsFilled ps
    → join bar (flush (take_parts limit st ps).chunks (take_parts limit st ps).cur)
      ≡ join bar (flush st.chunks st.cur ++ ps)
unfolding take_parts
join-take_parts limit [] st h = rw append-nil
join-take_parts limit (p ∷ ps) st h =
    join-take_parts limit ps (take_part limit st p) h.1 ∙ join-take_part limit st p ps h.0

-- The messages of `compact`, joined by the bar, are the parts of the cleaned lines, joined by the
-- bar in their order, whatever the limit.
pub join-compact :
    (limit : ℕ) (lines : List Text)
    → join bar (compact limit lines) ≡ join bar (parts_of limit (clean_lines lines))
unfolding compact flush
join-compact limit lines =
    join-take_parts limit (parts_of limit (clean_lines lines)) no_chunks
      (parts_of-IsFilled limit _ (clean_lines-IsFilled lines))
