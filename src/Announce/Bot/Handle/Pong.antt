-- ===== src/Announce/Bot/Handle/Pong.antt =====
-- A PING is answered, with a source or message tags in front of it or without.
use orochi.Prelude.{
  arith, inl, inr, sym, drop, none, Bool-cases, Option-cases, append-nil, append_assoc, ℕ, Bool,
  true, false, List, [], ◌∷◌, ◌++◌, ◌≡◌, refl, ap, ◌∙◌, ◌==◌, All, some,
}
use orochi.Text.{starts_with, is_space, Text, text, same, rstrip, upper, member, keep_last}
use orochi.Text.Split.{emit_word, after_char, words, words_from, cut}
use orochi.Text.Words.{words-strip}
use orochi.Announce.Config.{Config}
use orochi.Announce.World.{World}
use orochi.Announce.Bot.{Bot, topic_change_protected, protected_words, send_raw, transmit}
use orochi.Announce.Bot.Handle.{untagged, ping_token, drop_colon, on_words, handle}

protected_words-verb :
    (verb : Text) (rest : List Text)
    → member (upper verb) (text "TOPIC" ∷ text "FORCETOPIC" ∷ []) ≡ false
    → protected_words (verb ∷ rest) ≡ false
unfolding protected_words
protected_words-verb verb [] h = refl
protected_words-verb verb (c ∷ r) h = rw h

pong_unprotected : (tok : Text) → topic_change_protected (text "PONG :" ++ tok) ≡ false
unfolding topic_change_protected words words_from
pong_unprotected tok =
    rw words-strip (protected_words-verb (text "PONG") (words_from [] (b':' ∷ tok)) refl)

send_pong :
    (w : World) (tok : Text) (b : Bot)
    → b.sock ≡ true
    → w.link_up ≡ true
    → send_raw w (text "PONG :" ++ tok) b
      ≡ record b { wire = b.wire ++ (text "PONG :" ++ tok) ∷ [] }
unfolding send_raw transmit
send_pong w tok b s l = rw (pong_unprotected tok, s, l)

keep_last_self : (c : ℕ) (s : Text) → c ≡ b':' → keep_last c s ≡ c ∷ s
unfolding is_space
keep_last_self c [] e = rw e
keep_last_self c (d ∷ s) e = refl

ping_token_ping : (tok : Text) → rstrip tok ≡ tok → ping_token (text "PING :" ++ tok) ≡ tok
unfolding ping_token
ping_token_ping tok e =
    ap (λ s. drop_colon (keep_last b':' s)) e ∙ ap drop_colon (keep_last_self b':' tok refl)

on_words_ping :
    (cfg : Config) (w : World) (work : Text) (joined : Bool) (rest : List Text) (b : Bot)
    → on_words cfg w work joined (text "PING" ∷ rest) b
      ≡ (send_raw w (text "PONG :" ++ ping_token work) b, joined)
unfolding on_words
on_words_ping cfg w work joined [] b = unfold same in refl
on_words_ping cfg w work joined (y ∷ rest) b = unfold same in refl

on_words_source :
    (cfg : Config) (w : World) (work x : Text) (joined : Bool) (rest : List Text) (b : Bot)
    → same x (text "PING") ≡ false
    → on_words cfg w work joined (x ∷ text "PING" ∷ rest) b
      ≡ (send_raw w (text "PONG :" ++ ping_token work) b, joined)
unfolding on_words same
on_words_source cfg w work x joined rest b h = rw h refl

-- No character is a space.
abbrev pub Unspaced : Text → Type 0
Unspaced s = All (λ c. (c == b' ') ≡ false) s

cut-Unspaced : (s r : Text) → Unspaced s → cut (text " ") (s ++ b' ' ∷ r) ≡ some (s, r)
unfolding cut
cut-Unspaced [] r h = refl
cut-Unspaced (c ∷ s) r h = rw (cut-Unspaced s r h.1, h.0)

-- A block of tags is taken off.
untagged_tags : (tags r : Text) → Unspaced tags → untagged (b'@' ∷ (tags ++ b' ' ∷ r)) ≡ r
unfolding untagged
untagged_tags tags r h = rw (cut-Unspaced (b'@' ∷ tags) r (refl, h)) refl

-- No character is white space.
abbrev pub Solid : Text → Type 0
Solid s = All (λ c. is_space c ≡ false) s

-- A space ends a prefix that has none.
starts_with-space : (s r p : Text) → Unspaced p → starts_with (s ++ b' ' ∷ r) p ≡ starts_with s p
unfolding starts_with
starts_with-space [] r [] h = refl
starts_with-space [] r (d ∷ p) h = let i : (b' ' == d) ≡ false = ground (arith, h.0) in rw i refl
starts_with-space (c ∷ s) r [] h = refl
starts_with-space (c ∷ s) r (d ∷ p) h = rw (starts_with-space s r p h.1) refl

apart : {p : Text × Text} → ¬ (some p ≡ none)
apart h = ground arith

ping_here :
    (c : ℕ) (s : Text)
    → starts_with (c ∷ s) (text "PING") ≡ true
    → cut (text "PING") (c ∷ s) ≡ some ([], drop 3 s)
unfolding cut
ping_here c s e = rw e refl

ping_later :
    (c : ℕ) (s : Text)
    → starts_with (c ∷ s) (text "PING") ≡ false
    → cut (text "PING") (c ∷ s) ≡ after_char c (cut (text "PING") s)
unfolding cut
ping_later c s e = rw e refl

-- The first PING stands behind a source without one.
cut-ping :
    (s tok : Text)
    → cut (text "PING") s ≡ none
    → cut (text "PING") (s ++ (text " PING :" ++ tok)) ≡ some (s ++ b' ' ∷ [], text " :" ++ tok)
cut-ping [] tok h = unfold cut in unfold starts_with in refl
cut-ping (c ∷ s) tok h =
    let same_start =
      starts_with-space (c ∷ s) (text "PING :" ++ tok) (text "PING")
        (refl, (refl, (refl, (refl, tt)))) in
    elim (Bool-cases (starts_with (c ∷ s) (text "PING"))) [
      | inl e ↦ absurd (apart (sym (ping_here c s e) ∙ h))
      | inr e ↦ elim (Option-cases (cut (text "PING") s)) [
        | inl n ↦
            ping_later c (s ++ (text " PING :" ++ tok)) (same_start ∙ e)
            ∙ ap (after_char c) (cut-ping s tok n)
        | inr (p, n) ↦ absurd (apart (sym (ping_later c s e ∙ ap (after_char c) n) ∙ h))
      ]
    ]

words_from-step :
    (cur : Text) (c : ℕ) (s : Text)
    → is_space c ≡ false
    → words_from cur (c ∷ s) ≡ words_from (cur ++ c ∷ []) s
unfolding words_from
words_from-step cur c s h = rw (h, words_from) refl

words_from-Solid :
    (cur s r : Text)
    → Solid s
    → words_from cur (s ++ b' ' ∷ r) ≡ emit_word (cur ++ s) (words_from [] r)
words_from-Solid cur [] r h = unfold words_from in unfold is_space in rw (append-nil cur) refl
words_from-Solid cur (c ∷ s) r h =
    words_from-step cur c (s ++ b' ' ∷ r) h.0
    ∙ (words_from-Solid (cur ++ c ∷ []) s r h.1
        ∙ ap (λ x. emit_word x (words_from [] r)) (append_assoc cur (c ∷ []) s))

ping_token-cut :
    (work x tok : Text)
    → cut (text "PING") work ≡ some (x, text " :" ++ tok)
    → rstrip tok ≡ tok
    → ping_token work ≡ tok
unfolding ping_token
ping_token-cut work x tok h e =
    rw h (ap (λ s. drop_colon (keep_last b':' s)) e ∙ ap drop_colon (keep_last_self b':' tok refl))

module _ (cfg : Config) (w : World) (tok : Text) (joined : Bool) (b : Bot)
    (trimmed : rstrip tok ≡ tok) (connected : b.sock ≡ true) (up : w.link_up ≡ true) where
  answer :
      on_words cfg w (text "PING :" ++ tok) joined (words (text "PING :" ++ tok)) b
      ≡ (record b { wire = b.wire ++ (text "PONG :" ++ tok) ∷ [] }, joined)
  unfolding words words_from
  answer =
      on_words_ping cfg w (text "PING :" ++ tok) joined (words_from [] (b':' ∷ tok)) b
      ∙ rw (ping_token_ping tok trimmed, send_pong w tok b connected up)

  answer_source :
      (src : Text)
      → Solid src
      → cut (text "PING") (b':' ∷ src) ≡ none
      → on_words cfg w
          (b':' ∷ src ++ (text " PING :" ++ tok))
          joined
          (words (b':' ∷ src ++ (text " PING :" ++ tok)))
          b
        ≡ (record b { wire = b.wire ++ (text "PONG :" ++ tok) ∷ [] }, joined)
  unfolding words same
  answer_source src h k =
      let work = b':' ∷ src ++ (text " PING :" ++ tok) in
      ap (λ ps. on_words cfg w work joined ps b)
        (words_from-Solid [] (b':' ∷ src) (text "PING :" ++ tok) (refl, h))
      ∙ (on_words_source cfg w work (b':' ∷ src) joined (words_from [] (b':' ∷ tok)) b refl
          ∙ rw
              (
                ping_token-cut work _ tok (cut-ping (b':' ∷ src) tok k) trimmed,
                send_pong w tok b connected up,
              )
              refl)

  tagged :
      (tags r : Text)
      → Unspaced tags
      → handle cfg w (b'@' ∷ (tags ++ b' ' ∷ r)) joined b ≡ on_words cfg w r joined (words r) b
  unfolding handle
  tagged tags r h = ap (λ work. on_words cfg w work joined (words work) b) (untagged_tags tags r h)

  -- A PING of a bot that is connected is answered in each of its forms: `PING :token` and
  -- `:source PING :token`, each alone or behind a block of message tags. Exactly `PONG :token` is put
  -- on the wire and nothing else changes. The token has no white space at its end; the source has no
  -- white space and no PING inside, and the tags have no space.
  pub handle_ping :
      (tags src : Text)
      → Unspaced tags
      → Solid src
      → cut (text "PING") (b':' ∷ src) ≡ none
      → (handle cfg w (text "PING :" ++ tok) joined b
          ≡ (record b { wire = b.wire ++ (text "PONG :" ++ tok) ∷ [] }, joined))
        × (handle cfg w (b'@' ∷ (tags ++ (text " PING :" ++ tok))) joined b
            ≡ (record b { wire = b.wire ++ (text "PONG :" ++ tok) ∷ [] }, joined))
        × (handle cfg w (b':' ∷ src ++ (text " PING :" ++ tok)) joined b
            ≡ (record b { wire = b.wire ++ (text "PONG :" ++ tok) ∷ [] }, joined))
        × (handle cfg w (b'@' ∷ (tags ++ b' ' ∷ (b':' ∷ src ++ (text " PING :" ++ tok)))) joined b
            ≡ (record b { wire = b.wire ++ (text "PONG :" ++ tok) ∷ [] }, joined))
  unfolding handle untagged
  handle_ping tags src h i k = (
    answer,
    tagged tags (text "PING :" ++ tok) h ∙ answer,
    answer_source src i k,
    tagged tags (b':' ∷ src ++ (text " PING :" ++ tok)) h ∙ answer_source src i k,
  )
