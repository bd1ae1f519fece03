-- ===== src/Announce/Bot/Loop/Stream.antt =====
-- The rounds of a connection by the lines of its whole stream, however the network cuts it.
use orochi.Prelude.{
  ℕ, Bool, append-nil, Option, none, some, List, [], ◌∷◌, ◌++◌, ◌≡◌, ◌⊎◌, refl, sym, ap, ◌∙◌, inl,
  inr, Bool-cases, All, All-append, append_assoc,
}
use orochi.Text.{Text, text}
use orochi.Announce.Config.{Config}
use orochi.Announce.World.{World}
use orochi.Announce.Bot.{Bot, pump_out}
use orochi.Announce.Bot.Loop.{
  Bytes, LoopState, Outcome, next, raised, past, crlf, keepalive, cap_timeout, heartbeat,
  poll_heads, timers, round, rounds,
}
use orochi.Announce.Bot.Loop.Lines.{NoLineEnd, glue, after_lines, receive_data-handle_each}

-- What a round brings: nothing, the end of the stream, or lines that have become complete.
pub data Turn : Type 0 where
  quiet ended : Turn
  lines : List Bytes → Turn

-- The turns of the rounds, at the times of the rounds: one for each round up to the end of the
-- stream.
pub data Turns : List (World × Option Bytes) → List (World × Turn) → Type 0 where
  over : Turns [] []
  close :
      {w : World} {rs : List (World × Option Bytes)} → Turns ((w, some []) ∷ rs) ((w, ended) ∷ [])
  wait :
      {w : World} {rs : List (World × Option Bytes)} {ts : List (World × Turn)}
      → Turns rs ts
      → Turns ((w, none) ∷ rs) ((w, quiet) ∷ ts)
  read :
      {w : World} {c : ℕ} {d : Bytes} {rs : List (World × Option Bytes)} {ls : List Bytes}
      {ts : List (World × Turn)}
      → Turns rs ts
      → Turns ((w, some (c ∷ d)) ∷ rs) ((w, lines ls) ∷ ts)

-- The bytes up to the end of the stream.
abbrev pub stream : List (World × Option Bytes) → Bytes
stream [] = []
stream ((w, none) ∷ rs) = stream rs
stream ((w, some []) ∷ rs) = []
stream ((w, some (c ∷ d)) ∷ rs) = (c ∷ d) ++ stream rs

-- The lines of all turns.
abbrev pub all_lines : List (World × Turn) → List Bytes
all_lines [] = []
all_lines ((w, quiet) ∷ ts) = all_lines ts
all_lines ((w, ended) ∷ ts) = all_lines ts
all_lines ((w, lines ls) ∷ ts) = ls ++ all_lines ts

glue-append : (ls ms : List Bytes) (rest : Bytes) → glue ls (glue ms rest) ≡ glue (ls ++ ms) rest
glue-append [] ms rest = refl
glue-append (l ∷ ls) ms rest = rw (glue-append ls ms rest) refl

glue-after : (ls : List Bytes) (rest t : Bytes) → glue ls rest ++ t ≡ glue ls (rest ++ t)
glue-after [] rest t = refl
glue-after (l ∷ ls) rest t =
    append_assoc l (crlf ++ glue ls rest) t ∙ rw (glue-after ls rest t) refl

-- The bot after a round and what follows it.
abbrev pub follow : (LoopState → Bot) → Outcome → Bot
follow f (next st) = f st
follow f (raised e b) = b

module _ (decode : Bytes → Text) (cfg : Config) where
  rounds-round :
      (w : World) (input : Option Bytes) (rs : List (World × Option Bytes)) (st : LoopState)
      (o : Outcome)
      → round decode cfg w input st ≡ o
      → rounds decode cfg ((w, input) ∷ rs) st ≡ follow (rounds decode cfg rs) o
  unfolding rounds
  rounds-round w input rs st (next st') e = rw (e, rounds) refl
  rounds-round w input rs st (raised r b) e = rw (e, rounds) refl

  -- The rounds without a buffer: a turn handles its lines, then the timers run.
  abbrev pub line_rounds : List (World × Turn) → Bool → Bot → Bot
  line_rounds [] joined b = b
  line_rounds ((w, quiet) ∷ ts) joined b =
      follow (λ st. line_rounds ts st.joined st.bot)
        (timers cfg w (record { buf = []; joined = joined; bot = b }))
  line_rounds ((w, ended) ∷ ts) joined b = b
  line_rounds ((w, lines ls) ∷ ts) joined b =
      follow (λ st. line_rounds ts st.joined st.bot)
        (timers cfg w (after_lines decode cfg w ls [] joined (record b { last_rx = w.now })))

  -- The timers of a round that does not time out.
  abbrev timed : World → Bool → Bot → Bot
  timed w joined b =
      poll_heads cfg w joined (heartbeat cfg w joined (cap_timeout w (keepalive w (pump_out w b))))

  timers_cases :
      (w : World) (st : LoopState)
      → ((buf : Bytes)
          → timers cfg w (record st { buf = buf })
            ≡ raised (text "read timeout") (pump_out w st.bot))
        ⊎ ((buf : Bytes)
            → timers cfg w (record st { buf = buf })
              ≡ next (record st { buf = buf; bot = timed w st.joined st.bot }))
  unfolding timers
  timers_cases w st = elim (Bool-cases (past w (pump_out w st.bot).last_rx 240000)) [
    | inl e ↦ inl (λ buf. rw e refl)
    | inr e ↦ inr (λ buf. rw e refl)
  ]

  -- What a list of turns says of the rounds from a state.
  abbrev ByLine : List (World × Option Bytes) → LoopState → Type 0
  ByLine rs st =
      (ts : List (World × Turn)) × (rest : Bytes) × Turns rs ts
      × (st.buf ++ stream rs ≡ glue (all_lines ts) rest)
      × All NoLineEnd (all_lines ts)
      × NoLineEnd rest
      × (rounds decode cfg rs st ≡ line_rounds ts st.joined st.bot)

  -- The rounds of a connection, whatever bytes each brings and whenever it comes, act as on lines: the
  -- bytes in the buffer and all that come up to the end of the stream are lines, each with its end,
  -- and a rest, with no line end inside a line or the rest, however they are cut into receptions. The
  -- lines are handed to `handle` once each and in this order. Each belongs to a round that brings
  -- bytes, which sets `last_rx` before its lines and runs the timers after them; a quiet round runs the
  -- timers only. The end of the stream, or a timer that raises, ends the rounds with the bot as it is
  -- then. This needs a buffer that holds no line end at the start.
  pub rounds-line_rounds :
      (rs : List (World × Option Bytes)) (st : LoopState)
      → NoLineEnd st.buf
      → (ts : List (World × Turn)) × (rest : Bytes) × Turns rs ts
        × (st.buf ++ stream rs ≡ glue (all_lines ts) rest)
        × All NoLineEnd (all_lines ts)
        × NoLineEnd rest
        × (rounds decode cfg rs st ≡ line_rounds ts st.joined st.bot)
  unfolding round rounds
  rounds-line_rounds [] st h = ([], st.buf, over, append-nil st.buf, tt, h, refl)
  rounds-line_rounds ((w, some []) ∷ rs) st h =
      ((w, ended) ∷ [], st.buf, close, append-nil st.buf, tt, h, refl)
  rounds-line_rounds ((w, none) ∷ rs) st h = elim (timers_cases w st) [
    | inl e ↦
        let (ts, rest, t, glued, good, last, r) = rounds-line_rounds rs st h in
        (
          (w, quiet) ∷ ts,
          rest,
          wait t,
          glued,
          good,
          last,
          rounds-round w none rs st _ (e st.buf)
              ∙ sym (ap (follow (λ st. line_rounds ts st.joined st.bot)) (e [])),
        )
    | inr e ↦
        let (ts, rest, t, glued, good, last, r) =
          rounds-line_rounds rs (record st { bot = timed w st.joined st.bot }) h in
        (
          (w, quiet) ∷ ts,
          rest,
          wait t,
          glued,
          good,
          last,
          rounds-round w none rs st _ (e st.buf)
              ∙ (r ∙ sym (ap (follow (λ st. line_rounds ts st.joined st.bot)) (e []))),
        )
  ]
  rounds-line_rounds ((w, some (c ∷ d)) ∷ rs) st h =
      let (ls, rest₁, glued₁, good₁, last₁, r₁) =
        receive_data-handle_each decode cfg w (c ∷ d) st in
      let st₁ = after_lines decode cfg w ls rest₁ st.joined (record st.bot { last_rx = w.now }) in
      let same_stream : (ms : List Bytes) (rest : Bytes)
          → rest₁ ++ stream rs ≡ glue ms rest
          → st.buf ++ ((c ∷ d) ++ stream rs) ≡ glue (ls ++ ms) rest =
        λ ms rest g.
          sym (append_assoc st.buf (c ∷ d) (stream rs))
          ∙ (ap (λ x. x ++ stream rs) glued₁
              ∙ (glue-after ls rest₁ (stream rs) ∙ (ap (glue ls) g ∙ glue-append ls ms rest))) in
      elim (timers_cases w st₁) [
        | inl e ↦
            let (ts, rest, t, glued, good, last, r) = rounds-line_rounds rs st₁ last₁ in
            (
              (w, lines ls) ∷ ts,
              rest,
              read t,
              same_stream (all_lines ts) rest glued,
              All-append NoLineEnd ls (all_lines ts) good₁ good,
              last,
              rounds-round w (some (c ∷ d)) rs st _ (ap (timers cfg w) r₁ ∙ e rest₁)
                  ∙ sym (ap (follow (λ st. line_rounds ts st.joined st.bot)) (e [])),
            )
        | inr e ↦
            let (ts, rest, t, glued, good, last, r) =
              rounds-line_rounds rs (record st₁ { bot = timed w st₁.joined st₁.bot }) last₁ in
            (
              (w, lines ls) ∷ ts,
              rest,
              read t,
              same_stream (all_lines ts) rest glued,
              All-append NoLineEnd ls (all_lines ts) good₁ good,
              last,
              rounds-round w (some (c ∷ d)) rs st _ (ap (timers cfg w) r₁ ∙ e rest₁)
                  ∙ (r ∙ sym (ap (follow (λ st. line_rounds ts st.joined st.bot)) (e []))),
            )
      ]
