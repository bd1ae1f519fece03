-- ===== src/Announce/Chunks/Bounds.antt =====
-- No chunk is longer than the limit, as long as the limit takes every single character.
use orochi.Prelude.{
  ℕ, ◌+◌, ◌≤◌, List, [], ◌∷◌, ◌++◌, ◌≡◌, inl, inr, arith, ltb, leb, Bool-cases, All, All-append,
}
use orochi.Text.{Text, text}
use orochi.Text.Split.{split_on, clean_lines}
use orochi.Announce.Chunks.{
  width, byte_len, Chunking, flush, split_word, extend, take_word, take_words, no_chunks,
  split_text, bar, take_part, take_parts, parts_of, compact,
}

pub width-le : (c : ℕ) → width c ≤ 4
unfolding width
width-le c = ground arith

pub byte_len-append : (s t : Text) → byte_len (s ++ t) ≡ byte_len s + byte_len t
unfolding byte_len
byte_len-append [] t = omega arith
byte_len-append (c ∷ s) t = omega (arith, byte_len-append s t)

module _ (limit : ℕ) (wide : 4 ≤ limit) where
  abbrev Fits : Text → Type 0
  Fits s = byte_len s ≤ limit

  record Fitting (st : Chunking) : Type 0 where
    chunks_fit : All Fits st.chunks
    cur_fits : Fits st.cur

  Fits-char : (c : ℕ) → Fits (c ∷ [])
  unfolding byte_len
  Fits-char c = omega (arith, width-le c)

  flush-Fits :
      (chunks : List Text) (cur : Text) → All Fits chunks → Fits cur → All Fits (flush chunks cur)
  unfolding flush
  flush-Fits chunks [] h k = h
  flush-Fits chunks (c ∷ cur) h k = All-append Fits chunks ((c ∷ cur) ∷ []) h (k, tt)

  split_word-Fitting : (w : Text) (st : Chunking) → Fitting st → Fitting (split_word limit st w)
  unfolding split_word
  split_word-Fitting [] st h = h
  split_word-Fitting (c ∷ w) st h = elim (Bool-cases (ltb limit (byte_len (st.cur ++ c ∷ [])))) [
    | inl over ↦ rw over (
        split_word-Fitting w _ (record {
          chunks_fit = flush-Fits st.chunks st.cur h.chunks_fit h.cur_fits;
          cur_fits = Fits-char c;
        }))
    | inr fits ↦
        rw fits
          (split_word-Fitting w _ (record { chunks_fit = h.chunks_fit; cur_fits = ground arith }))
  ]

  take_word-Fitting : (st : Chunking) (w : Text) → Fitting st → Fitting (take_word limit st w)
  unfolding take_word
  take_word-Fitting st [] h = h
  take_word-Fitting st (c ∷ w) h =
      let flushed = flush-Fits st.chunks st.cur h.chunks_fit h.cur_fits in
      elim (Bool-cases (leb (byte_len (extend (text " ") st.cur (c ∷ w))) limit)) [
        | inl e ↦ rw e (record { chunks_fit = h.chunks_fit; cur_fits = ground arith })
        | inr e ↦ elim (Bool-cases (leb (byte_len (c ∷ w)) limit)) [
          | inl f ↦ rw (e, f) (record { chunks_fit = flushed; cur_fits = ground arith })
          | inr f ↦
              rw (e, f)
                (split_word-Fitting (c ∷ w) _
                  (record { chunks_fit = flushed; cur_fits = unfold byte_len in omega arith }))
        ]
      ]

  take_words-Fitting :
      (ws : List Text) (st : Chunking) → Fitting st → Fitting (take_words limit st ws)
  unfolding take_words
  take_words-Fitting [] st h = h
  take_words-Fitting (w ∷ ws) st h = take_words-Fitting ws _ (take_word-Fitting st w h)

  no_chunks-Fitting : Fitting no_chunks
  unfolding byte_len
  no_chunks-Fitting = record { chunks_fit = tt; cur_fits = omega arith }

  -- With a limit of at least four bytes, every chunk of `split_text` is within the limit.
  pub split_text_bounds : (s : Text) → All (λ chunk. byte_len chunk ≤ limit) (split_text limit s)
  unfolding split_text
  split_text_bounds s =
      let done = take_words-Fitting (split_on b' ' s) no_chunks no_chunks-Fitting in
      elim (Bool-cases (leb (byte_len s) limit)) [
        | inl e ↦ rw e (ground arith, tt)
        | inr e ↦ rw e (flush-Fits _ _ done.chunks_fit done.cur_fits)
      ]

  parts_of-Fits : (ls : List Text) → All Fits (parts_of limit ls)
  unfolding parts_of
  parts_of-Fits [] = tt
  parts_of-Fits (l ∷ ls) =
      All-append Fits (split_text limit l) _ (split_text_bounds l) (parts_of-Fits ls)

  take_part-Fitting :
      (st : Chunking) (p : Text) → Fits p → Fitting st → Fitting (take_part limit st p)
  unfolding take_part
  take_part-Fitting st p f h = elim (Bool-cases (leb (byte_len (extend bar st.cur p)) limit)) [
    | inl e ↦ rw e (record { chunks_fit = h.chunks_fit; cur_fits = ground arith })
    | inr e ↦
        rw e (record {
          chunks_fit = flush-Fits st.chunks st.cur h.chunks_fit h.cur_fits;
          cur_fits = f;
        })
  ]

  take_parts-Fitting :
      (ps : List Text) (st : Chunking) → All Fits ps → Fitting st → Fitting (take_parts limit st ps)
  unfolding take_parts
  take_parts-Fitting [] st f h = h
  take_parts-Fitting (p ∷ ps) st f h = take_parts-Fitting ps _ f.1 (take_part-Fitting st p f.0 h)

  -- With a limit of at least four bytes, every message of `compact` is within the limit.
  pub compact_bounds :
      (lines : List Text) → All (λ chunk. byte_len chunk ≤ limit) (compact limit lines)
  unfolding compact
  compact_bounds lines =
      let done =
        take_parts-Fitting (parts_of limit (clean_lines lines)) no_chunks (parts_of-Fits _)
          no_chunks-Fitting in
      flush-Fits _ _ done.chunks_fit done.cur_fits
