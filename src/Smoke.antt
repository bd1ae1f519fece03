-- ===== src/Smoke.antt =====
-- The byte streams of tools/upgrade_smoke.py (and of tools/runtime_smoke.py, whose `recv_until` is
-- the same): WebSocket frames out and in, and the loops that wait for a needle. What the calls of
-- `sock.recv` return before the deadline is a list of chunks; a timeout, an error of TLS and the
-- deadline are its end. A chunk that is empty is the end of the stream. The results are bytes, which
-- the source decodes at last.
pub mod Frames
pub mod Masks
pub mod Session
pub mod Runtime
pub mod Upgrade
pub mod Tests
use Prim.Native.Nat.{bit_xor}
use orochi.Prelude.{
  ℕ, zero, suc, ◌+◌, ◌*◌, ◌/◌, ◌%◌, Option, none, some, List, [], ◌∷◌, ◌++◌, ltb, ◌==◌,
  if◌then◌else◌, length, ◌>>=◌,
}
use orochi.Text.{is_empty, contains}

abbrev pub Bytes : Type 0
Bytes = List ℕ

-- `n.to_bytes(k, "big")` of a number that fits.
unfoldable pub to_bytes : ℕ → ℕ → Bytes
to_bytes zero n = []
to_bytes (suc k) n = to_bytes k (n / 256) ++ n % 256 ∷ []

-- `int.from_bytes(s, "big")`, on the value of the bytes before `s`.
unfoldable pub from_bytes : ℕ → Bytes → ℕ
from_bytes acc [] = acc
from_bytes acc (c ∷ s) = from_bytes (acc * 256 + c) s

-- `bytes(c ^ mask[i % 4] for i, c in enumerate(payload))`: the mask is turned by one byte for each
-- byte of the payload.
unfoldable pub masked : Bytes → Bytes → Bytes
masked mask [] = []
masked [] (c ∷ s) = []
masked (m ∷ mask) (c ∷ s) = bit_xor c m ∷ masked (mask ++ m ∷ []) s

-- `ws_frame`, on the four bytes of `os.urandom`; `none` is the `OverflowError` of `to_bytes`.
unfoldable pub ws_frame : Bytes → Bytes → Option Bytes
unfolding to_bytes masked
ws_frame mask payload =
    let n = length payload in
    if ltb n 126
    then some (0x81 ∷ (0x80 + n) ∷ mask ++ masked mask payload)
    else if ltb n 65536
    then some (0x81 ∷ (0x80 + 126) ∷ to_bytes 2 n ++ (mask ++ masked mask payload))
    else none

-- The first `n` bytes of a buffer and the rest, if it has so many.
unfoldable pub split_at : ℕ → Bytes → Option (Bytes × Bytes)
split_at zero s = some ([], s)
split_at (suc n) [] = none
split_at (suc n) (c ∷ s) = do (a, r) ← split_at n s; some (c ∷ a, r)

-- A frame that has been received: its opcode and its payload.
pub record Frame : Type 0 where
  pub opcode : ℕ
  pub payload : Bytes

-- A length in the `k` bytes in front.
unfoldable pub wide : ℕ → Bytes → Option (ℕ × Bytes)
unfolding split_at from_bytes
wide k s = do (l, r) ← split_at k s; some (from_bytes 0 l, r)

-- The length of the payload, and the bytes behind the length.
unfoldable pub length_field : ℕ → Bytes → Option (ℕ × Bytes)
unfolding wide
length_field n s = if n == 126 then wide 2 s else if n == 127 then wide 8 s else some (n, s)

-- One round of the inner loop of `ws_recv_text`; `none` is a `break`.
unfoldable pub next_frame : Bytes → Option (Frame × Bytes)
unfolding length_field split_at
next_frame [] = none
next_frame (b0 ∷ []) = none
next_frame (b0 ∷ b1 ∷ s) = do
  (n, r) ← length_field (b1 % 128) s
  (p, rest) ← split_at n r
  some (record { opcode = b0 % 16; payload = p }, rest)

-- `buf` and `text`
pub record Received : Type 0 where
  pub buf : Bytes
  pub text : Bytes

-- What a frame adds to `text`.
unfoldable pub shown : Frame → Bytes
shown f =
    if f.opcode == 1
    then f.payload ++ 10 ∷ []
    else if f.opcode == 2
    then f.payload ++ 10 ∷ []
    else []

-- The inner loop, with fuel.
unfoldable pub drain_loop : ℕ → Received → Received
unfolding next_frame shown
drain_loop zero st = st
drain_loop (suc fuel) st = elim (next_frame st.buf) [
  | none ↦ st
  | some (f, rest) ↦ drain_loop fuel (record { buf = rest; text = st.text ++ shown f })
]

-- Every round takes a byte at least, so the length is fuel enough.
unfoldable pub drain : Received → Received
unfolding drain_loop
drain st = drain_loop (length st.buf) st

-- The outer loop of `ws_recv_text`.
unfoldable pub receive : Bytes → List Bytes → Received → Received
unfolding drain
receive needle [] st = st
receive needle (chunk ∷ chunks) st =
    let rest = receive needle chunks (drain (record st { buf = st.buf ++ chunk })) in
    if contains st.text needle then st else if is_empty chunk then st else rest

-- `ws_recv_text`
unfoldable pub ws_recv_text : Bytes → List Bytes → Bytes
unfolding receive
ws_recv_text needle chunks = (receive needle chunks (record { buf = []; text = [] })).text

-- `recv_until`, on the bytes that have come so far.
unfoldable pub recv_until : Bytes → Bytes → List Bytes → Bytes
recv_until needle buf [] = buf
recv_until needle buf (chunk ∷ chunks) =
    let rest = recv_until needle (buf ++ chunk) chunks in
    if is_empty chunk then buf else if contains (buf ++ chunk) needle then buf ++ chunk else rest
