-- ===== src/Smoke/Tests.antt =====
-- Runs of the frame readers of tools/upgrade_smoke.py.
use orochi.Prelude.{some, List, [], ◌∷◌, ◌++◌, ◌≡◌, refl, ◌⊎◌, true, ◌>>=◌, arith, All}
use orochi.Text.{text, contains}
use orochi.Smoke.{Bytes, Frame, ws_recv_text, ws_frame, recv_until, shown}
use orochi.Smoke.Frames.Sent.{
  IsFrame, texts, ws_recv_text_cases, contains-ws_recv_text, contains-recv_until,
}
use orochi.Smoke.Masks.{unframe, unframe-ws_frame}

-- A pong, which is skipped, and two lines.
abbrev frames : List Frame
frames =
    record { opcode = 10; payload = text "x" }
    ∷ record { opcode = 1; payload = text ":a PING" }
    ∷ record { opcode = 2; payload = text ":a 001 ok" }
    ∷ []

-- Cuts inside a header and inside a payload.
abbrev chunks : List Bytes
chunks =
    (138 ∷ [])
    ∷ (1 ∷ b'x' ∷ 129 ∷ 7 ∷ text ":a PI")
    ∷ (text "NG" ++ (130 ∷ 9 ∷ text ":a 00"))
    ∷ text "1 ok"
    ∷ []

received : ws_recv_text (text " 001 ") chunks ≡ text ":a PING" ++ 10 ∷ (text ":a 001 ok" ++ 10 ∷ [])
unfolding ws_recv_text contains
received = refl

frames-IsFrame : All IsFrame frames
frames-IsFrame = (
  record { opcode_bounds = omega arith; length_bounds = omega arith },
  (
    record { opcode_bounds = omega arith; length_bounds = omega arith },
    (record { opcode_bounds = omega arith; length_bounds = omega arith }, tt),
  ),
)

ws_recv_text_cases_example :
    (contains (ws_recv_text (text " 001 ") chunks) (text " 001 ") ≡ true)
    ⊎ (ws_recv_text (text " 001 ") chunks ≡ texts frames)
ws_recv_text_cases_example =
    ws_recv_text_cases (text " 001 ") frames chunks frames-IsFrame
      (refl, (refl, (refl, (refl, tt)))) refl

contains-ws_recv_text_example : contains (ws_recv_text (text " 001 ") chunks) (text " 001 ") ≡ true
unfolding contains shown
contains-ws_recv_text_example =
    contains-ws_recv_text (text " 001 ") frames chunks frames-IsFrame
      (refl, (refl, (refl, (refl, tt)))) refl refl

-- The needle lies across two chunks.
contains-recv_until_example :
    contains (recv_until (text " 001 ") [] (text ":a 0" ∷ text "01 ok" ∷ [])) (text " 001 ") ≡ true
unfolding contains
contains-recv_until_example =
    contains-recv_until (text " 001 ") [] (text ":a 0" ∷ text "01 ok" ∷ []) (refl, (refl, tt)) refl

unframe-ws_frame_example :
    (ws_frame (1 ∷ 2 ∷ 3 ∷ 255 ∷ []) (text "NICK a") >>= (λ s. unframe (s ++ 129 ∷ [])))
    ≡ some (record { opcode = 1; payload = text "NICK a" }, 129 ∷ [])
unframe-ws_frame_example =
    unframe-ws_frame (1 ∷ 2 ∷ 3 ∷ 255 ∷ []) (text "NICK a") (129 ∷ []) refl
      (omega arith, (omega arith, (omega arith, (omega arith, tt))))
      (omega arith, (omega arith, (omega arith, (omega arith, (omega arith, (omega arith, tt))))))
      (omega arith)
