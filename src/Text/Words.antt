-- ===== src/Text/Words.antt =====
-- The words of a text do not depend on white space at its ends.
use orochi.Prelude.{ℕ, true, false, [], ◌∷◌, ◌++◌, ◌≡◌, refl, sym, ap, ◌∙◌, inl, inr, Bool-cases}
use orochi.Text.{Text, is_space, lstrip, rstrip, strip, keep_last}
use orochi.Text.Split.{words, words_from, emit_word}

words_from-space :
    (c : ℕ) (cur s : Text)
    → is_space c ≡ true
    → words_from cur (c ∷ s) ≡ emit_word cur (words_from [] s)
unfolding words_from
words_from-space c cur s h = rw (h, words_from)

words_from-char :
    (c : ℕ) (cur s : Text)
    → is_space c ≡ false
    → words_from cur (c ∷ s) ≡ words_from (cur ++ c ∷ []) s
unfolding words_from
words_from-char c cur s h = rw (h, words_from)

words_from-lstrip : (s : Text) → words_from [] (lstrip s) ≡ words_from [] s
unfolding lstrip
words_from-lstrip [] = refl
words_from-lstrip (c ∷ s) = elim (Bool-cases (is_space c)) [
  | inl e ↦ rw e (words_from-lstrip s ∙ sym (words_from-space c [] s e))
  | inr e ↦ rw e
]

-- The same first character in front of texts that agree in every context.
words_from-keep_last :
    (c : ℕ) (r s : Text)
    → ((cur : Text) → words_from cur r ≡ words_from cur s)
    → (cur : Text) → words_from cur (keep_last c r) ≡ words_from cur (c ∷ s)
words_from-keep_last c [] s h cur = elim (Bool-cases (is_space c)) [
  | inl e ↦ rw (e, words_from-space c cur s e, ← h []) (unfold words_from in refl)
  | inr e ↦ rw (e, words_from-char c cur s e, words_from-char c cur [] e) (h (cur ++ c ∷ []))
]
words_from-keep_last c (d ∷ r) s h cur = elim (Bool-cases (is_space c)) [
  | inl e ↦
      words_from-space c cur (d ∷ r) e
      ∙ ap (emit_word cur) (h [])
      ∙ sym (words_from-space c cur s e)
  | inr e ↦ words_from-char c cur (d ∷ r) e ∙ h (cur ++ c ∷ []) ∙ sym (words_from-char c cur s e)
]

words_from-rstrip : (s cur : Text) → words_from cur (rstrip s) ≡ words_from cur s
unfolding rstrip
words_from-rstrip [] cur = refl
words_from-rstrip (c ∷ s) cur = words_from-keep_last c (rstrip s) s (words_from-rstrip s) cur

pub words-strip : (s : Text) → words (strip s) ≡ words s
unfolding words strip
words-strip s = words_from-rstrip (lstrip s) [] ∙ words_from-lstrip s
