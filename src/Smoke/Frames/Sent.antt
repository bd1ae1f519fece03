-- ===== src/Smoke/Frames/Sent.antt =====
-- The frames of a server after RFC 6455, and what `ws_recv_text` makes of their bytes, however the
-- network cuts them.
use orochi.Prelude.{
  ℕ, zero, suc, ◌+◌, ◌*◌, ◌/◌, ◌%◌, ◌^◌, ◌<◌, some, List, [], ◌∷◌, ◌++◌, ◌≡◌, refl, sym, true,
  false, ap, ◌∙◌, subst, ◌⊎◌, inl, inr, arith, ltb, ◌==◌, if◌then◌else◌, Bool-cases, length,
  length-append, append_assoc, append-nil, All,
}
use orochi.Text.{is_empty, contains}
use orochi.Smoke.{
  Bytes, Frame, Received, to_bytes, from_bytes, split_at, wide, length_field, next_frame, shown,
  drain, receive, ws_recv_text, recv_until,
}
use orochi.Smoke.Frames.{fed, drain-none, drain-some, drain-fed}

-- The seven bits for the length, and the longer form behind them.
abbrev pub length_head : ℕ → ℕ
length_head n = if ltb n 126 then n else if ltb n 65536 then 126 else 127

abbrev pub length_tail : ℕ → Bytes
length_tail n = if ltb n 126 then [] else if ltb n 65536 then to_bytes 2 n else to_bytes 8 n

-- The bytes of a final frame without a mask.
abbrev pub frame_bytes : Frame → Bytes
frame_bytes f =
    let n = length f.payload in (0x80 + f.opcode) ∷ length_head n ∷ (length_tail n ++ f.payload)

abbrev pub sent : List Frame → Bytes
sent [] = []
sent (f ∷ fs) = frame_bytes f ++ sent fs

-- The payloads of the frames with text or data, each ended by a line feed.
abbrev pub texts : List Frame → Bytes
texts [] = []
texts (f ∷ fs) = shown f ++ texts fs

-- An opcode of four bits and a length of 64.
pub record IsFrame (f : Frame) : Type 0 where
  pub opcode_bounds : f.opcode < 16
  pub length_bounds : length f.payload < 256 ^ 8

abbrev pub concat : List Bytes → Bytes
concat [] = []
concat (c ∷ cs) = c ++ concat cs

from_bytes-append :
    (acc c : ℕ) (s : Bytes) → from_bytes acc (s ++ c ∷ []) ≡ from_bytes acc s * 256 + c
unfolding from_bytes
from_bytes-append acc c [] = refl
from_bytes-append acc c (d ∷ s) = from_bytes-append (acc * 256 + d) c s

from_bytes-to_bytes : (k n : ℕ) → n < 256 ^ k → from_bytes 0 (to_bytes k n) ≡ n
unfolding to_bytes from_bytes
from_bytes-to_bytes zero n h = omega arith
from_bytes-to_bytes (suc k) n h = omega (
  arith,
  from_bytes-append 0 (n % 256) (to_bytes k (n / 256)),
  from_bytes-to_bytes k (n / 256) (omega arith),
)

pub length-to_bytes : (k n : ℕ) → length (to_bytes k n) ≡ k
unfolding to_bytes
length-to_bytes zero n = refl
length-to_bytes (suc k) n =
    omega (arith, length-append (to_bytes k (n / 256)) (n % 256 ∷ []), length-to_bytes k (n / 256))

pub split_at-length : (a r : Bytes) → split_at (length a) (a ++ r) ≡ some (a, r)
unfolding split_at
split_at-length [] r = refl
split_at-length (c ∷ a) r = rw (split_at-length a r) refl

wide-to_bytes : (k n : ℕ) (r : Bytes) → n < 256 ^ k → wide k (to_bytes k n ++ r) ≡ some (n, r)
unfolding wide
wide-to_bytes k n r h =
    let e : split_at k (to_bytes k n ++ r) ≡ some (to_bytes k n, r) =
      subst (λ m. split_at m (to_bytes k n ++ r) ≡ some (to_bytes k n, r)) (length-to_bytes k n)
        (split_at-length (to_bytes k n) r) in
    rw (e, from_bytes-to_bytes k n h) refl

pub length_field-length_tail :
    (n : ℕ) (r : Bytes)
    → n < 256 ^ 8
    → length_field (length_head n % 128) (length_tail n ++ r) ≡ some (n, r)
unfolding length_field
length_field-length_tail n r h = elim (Bool-cases (ltb n 126)) [
  | inl e ↦
      let i : n % 128 ≡ n = ground arith in
      let j : n == 126 ≡ false = ground arith in
      let k : n == 127 ≡ false = ground arith in rw (e, i, j, k) refl
  | inr e ↦ elim (Bool-cases (ltb n 65536)) [
    | inl e' ↦ rw (e, e') (wide-to_bytes 2 n r (ground arith))
    | inr e' ↦ rw (e, e') (wide-to_bytes 8 n r h)
  ]
]

next_frame-frame_bytes :
    (f : Frame) (r : Bytes) → IsFrame f → next_frame (frame_bytes f ++ r) ≡ some (f, r)
unfolding next_frame
next_frame-frame_bytes f r h =
    let n = length f.payload in
    let i : (128 + f.opcode) % 16 ≡ f.opcode = omega (arith, h.opcode_bounds) in
    rw
      (
        append_assoc (length_tail n) f.payload r,
        length_field-length_tail n (f.payload ++ r) h.length_bounds,
        split_at-length f.payload r,
        i,
      )
      refl

drain-sent :
    (fs : List Frame) (t : Bytes)
    → All IsFrame fs
    → drain (record { buf = sent fs; text = t }) ≡ record { buf = []; text = t ++ texts fs }
unfolding next_frame
drain-sent [] t h = drain-none _ refl ∙ rw (append-nil t) refl
drain-sent (f ∷ fs) t h =
    drain-some (record { buf = sent (f ∷ fs); text = t }) f (sent fs)
      (next_frame-frame_bytes f (sent fs) h.0)
    ∙ (drain-sent fs (t ++ shown f) h.1 ∙ rw (append_assoc t (shown f) (texts fs)) refl)

fed-nil : (st : Received) → fed [] st ≡ st
fed-nil st = rw (append-nil st.buf) refl

fed-fed : (s t : Bytes) (st : Received) → fed t (fed s st) ≡ fed (s ++ t) st
fed-fed s t st = rw (append_assoc st.buf s t) refl

module _ (needle : Bytes) where
  receive-found :
      (chunks : List Bytes) (st : Received)
      → contains st.text needle ≡ true
      → receive needle chunks st ≡ st
  unfolding receive
  receive-found [] st e = refl
  receive-found (c ∷ cs) st e = rw (e, receive) refl

  receive-more :
      (c : Bytes) (cs : List Bytes) (st : Received)
      → contains st.text needle ≡ false
      → is_empty c ≡ false
      → receive needle (c ∷ cs) st ≡ receive needle cs (drain (fed c st))
  unfolding receive
  receive-more c cs st e h = rw (e, h, receive) refl

  -- The loop ends with the needle or with all that has come.
  receive-cases :
      (chunks : List Bytes) (st : Received)
      → All (λ c. is_empty c ≡ false) chunks
      → (contains (receive needle chunks (drain st)).text needle ≡ true)
        ⊎ (receive needle chunks (drain st) ≡ drain (fed (concat chunks) st))
  unfolding receive
  receive-cases [] st h = inr (ap drain (sym (fed-nil st)))
  receive-cases (c ∷ cs) st h = elim (Bool-cases (contains (drain st).text needle)) [
    | inl e ↦ inl (rw (receive-found (c ∷ cs) (drain st) e) e)
    | inr e ↦
        let i = receive-more c cs (drain st) e h.0 ∙ ap (receive needle cs) (drain-fed st c) in
        elim (receive-cases cs (fed c st) h.1) [
          | inl found ↦ inl (rw i found)
          | inr done ↦ inr (i ∙ (done ∙ ap drain (fed-fed c (concat cs) st)))
        ]
  ]

  -- However the bytes of the frames are cut into chunks, `ws_recv_text` returns either bytes that
  -- hold the needle or all the payloads of the frames with text or data, each ended by a line feed.
  -- The frames have opcodes of four bits and lengths of 64, with any of the three forms of the
  -- length, and no chunk is empty.
  pub ws_recv_text_cases :
      (fs : List Frame) (chunks : List Bytes)
      → All IsFrame fs
      → All (λ c. is_empty c ≡ false) chunks
      → concat chunks ≡ sent fs
      → (contains (ws_recv_text needle chunks) needle ≡ true)
        ⊎ (ws_recv_text needle chunks ≡ texts fs)
  unfolding ws_recv_text
  ws_recv_text_cases fs chunks h k e =
      let start : Received = record { buf = []; text = [] } in
      let idle : drain start ≡ start = drain-sent [] [] tt in
      let all : drain (fed (concat chunks) start) ≡ record { buf = []; text = texts fs } =
        rw e (drain-sent fs [] h) in
      elim (receive-cases chunks start k) [
        | inl found ↦
            inl (subst (λ st. contains (receive needle chunks st).text needle ≡ true) idle found)
        | inr done ↦ inr (ap (λ st. st.text) (ap (receive needle chunks) (sym idle) ∙ (done ∙ all)))
      ]

  -- If the payloads of the frames with text or data hold the needle, each ended by a line feed, then
  -- so does the result of `ws_recv_text`, however the bytes of the frames are cut into chunks. The
  -- frames have opcodes of four bits and lengths of 64, and no chunk is empty.
  pub contains-ws_recv_text :
      (fs : List Frame) (chunks : List Bytes)
      → All IsFrame fs
      → All (λ c. is_empty c ≡ false) chunks
      → concat chunks ≡ sent fs
      → contains (texts fs) needle ≡ true
      → contains (ws_recv_text needle chunks) needle ≡ true
  contains-ws_recv_text fs chunks h k e i = elim (ws_recv_text_cases fs chunks h k e) [
    | inl found ↦ found
    | inr all ↦ rw all i
  ]

  -- Wherever the needle stands in the bytes, also across two chunks, `recv_until` returns bytes that
  -- hold it, if no chunk is empty.
  pub contains-recv_until :
      (buf : Bytes) (chunks : List Bytes)
      → All (λ c. is_empty c ≡ false) chunks
      → contains (buf ++ concat chunks) needle ≡ true
      → contains (recv_until needle buf chunks) needle ≡ true
  unfolding recv_until
  contains-recv_until buf [] h e = rw (sym (append-nil buf)) e
  contains-recv_until buf (c ∷ cs) h e = elim (Bool-cases (contains (buf ++ c) needle)) [
    | inl i ↦
        let stop : recv_until needle buf (c ∷ cs) ≡ buf ++ c = rw (h.0, i, recv_until) refl in
        rw stop i
    | inr i ↦
        rw (i, h.0, recv_until)
          (contains-recv_until (buf ++ c) cs h.1 (rw (append_assoc buf c (concat cs)) e))
  ]
