-- ===== src/Announce/Chunks.antt =====
-- The chunking of replies in tools/announce_bot.py: `byte_len`, `split_text` and `compact`.
pub mod Bounds
pub mod Content
use orochi.Prelude.{ℕ, ◌+◌, Bool, true, false, ◌&&◌, List, [], ◌∷◌, ◌++◌, ltb, leb, if◌then◌else◌}
use orochi.Text.{Text, text, is_empty}
use orochi.Text.Split.{split_on, clean_lines}

-- The bytes of one code point under `encode("utf-8", "replace")`: a lone surrogate becomes `?`.
unfoldable pub width : ℕ → ℕ
width c =
    if ltb c 0x80
    then 1
    else if ltb c 0x800
    then 2
    else if leb 0xd800 c && leb c 0xdfff
    then 1
    else if ltb c 0x10000
    then 3
    else 4

unfoldable pub byte_len : Text → ℕ
unfolding width
byte_len [] = 0
byte_len (c ∷ s) = width c + byte_len s

-- `MAX_MESSAGE_TEXT_BYTES`
abbrev pub max_message_text_bytes : ℕ
max_message_text_bytes = 360

-- The loop variables of `split_text` and of `compact`.
pub record Chunking : Type 0 where
  pub chunks : List Text
  pub cur : Text

-- `if cur: chunks.append(cur)`
unfoldable pub flush : List Text → Text → List Text
flush chunks [] = chunks
flush chunks (c ∷ cur) = chunks ++ (c ∷ cur) ∷ []

-- The loop over the characters of a word that is longer than the limit.
unfoldable pub split_word : ℕ → Chunking → Text → Chunking
unfolding flush
split_word limit st [] = st
split_word limit st (c ∷ w) =
    let over = ltb limit (byte_len (st.cur ++ c ∷ [])) in
    split_word limit
      (if over
        then record { chunks = flush st.chunks st.cur; cur = c ∷ [] }
        else record { chunks = st.chunks; cur = st.cur ++ c ∷ [] })
      w

-- `word if not cur else cur + sep + word`
unfoldable pub extend : Text → Text → Text → Text
extend sep [] word = word
extend sep (c ∷ cur) word = (c ∷ cur) ++ (sep ++ word)

-- The body of the loop over the words.
unfoldable pub take_word : ℕ → Chunking → Text → Chunking
unfolding extend
take_word limit st [] = st
take_word limit st (c ∷ w) =
    let word = c ∷ w in
    let candidate = extend (text " ") st.cur word in
    if leb (byte_len candidate) limit
    then record { chunks = st.chunks; cur = candidate }
    else if leb (byte_len word) limit
    then record { chunks = flush st.chunks st.cur; cur = word }
    else split_word limit (record { chunks = flush st.chunks st.cur; cur = [] }) word

unfoldable pub take_words : ℕ → Chunking → List Text → Chunking
unfolding take_word
take_words limit st [] = st
take_words limit st (w ∷ ws) = take_words limit (take_word limit st w) ws

abbrev pub no_chunks : Chunking
no_chunks = record { chunks = []; cur = [] }

unfoldable pub split_text : ℕ → Text → List Text
split_text limit s =
    let done = take_words limit no_chunks (split_on b' ' s) in
    if leb (byte_len s) limit then s ∷ [] else flush done.chunks done.cur

-- `f" {GREY}|{RST} "`
abbrev pub bar : Text
bar = b' ' ∷ 3 ∷ b'1' ∷ b'4' ∷ b'|' ∷ 15 ∷ b' ' ∷ []

-- The body of the loop over the parts.
unfoldable pub take_part : ℕ → Chunking → Text → Chunking
unfolding extend flush
take_part limit st part =
    let candidate = extend bar st.cur part in
    if leb (byte_len candidate) limit
    then record { chunks = st.chunks; cur = candidate }
    else record { chunks = flush st.chunks st.cur; cur = part }

unfoldable pub take_parts : ℕ → Chunking → List Text → Chunking
unfolding take_part
take_parts limit st [] = st
take_parts limit st (p ∷ ps) = take_parts limit (take_part limit st p) ps

-- The parts of all lines, in the order in which the two loops visit them.
unfoldable pub parts_of : ℕ → List Text → List Text
parts_of limit [] = []
parts_of limit (l ∷ ls) = split_text limit l ++ parts_of limit ls

unfoldable pub compact : ℕ → List Text → List Text
compact limit lines =
    let done = take_parts limit no_chunks (parts_of limit (clean_lines lines)) in
    flush done.chunks done.cur
