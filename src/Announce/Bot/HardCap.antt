-- ===== src/Announce/Bot/HardCap.antt =====
-- The hard cap of `channel_say`: the loop ends within its fuel, and the line fits an IRC line.
use orochi.Prelude.{
  ℕ, zero, suc, ◌+◌, ◌-◌, ◌*◌, ◌≤◌, ◌<◌, [], ◌∷◌, ◌++◌, inl, inr, arith, ltb, Bool-cases, length,
  take, max, length-append, length-take,
}
use orochi.Text.{Text, text, rstrip, keep_last}
use orochi.Announce.Chunks.{byte_len, max_message_text_bytes}
use orochi.Announce.Chunks.Bounds.{width-le, byte_len-append}
use orochi.Announce.Bot.{cap_once, cap_loop, cap_text, privmsg_line}

pub byte_len-le : (s : Text) → byte_len s ≤ 4 * length s
unfolding byte_len
byte_len-le [] = omega arith
byte_len-le (c ∷ s) = omega (arith, width-le c, byte_len-le s)

length-keep_last : (c : ℕ) (s : Text) → length (keep_last c s) ≤ suc (length s)
length-keep_last c [] = ground arith
length-keep_last c (d ∷ s) = omega arith

length-rstrip : (s : Text) → length (rstrip s) ≤ length s
unfolding rstrip
length-rstrip [] = omega arith
length-rstrip (c ∷ s) = omega (arith, length-keep_last c (rstrip s), length-rstrip s)

-- A round on a text that is too long makes it shorter.
length-cap_once : (s : Text) → max_message_text_bytes < byte_len s → length (cap_once s) < length s
unfolding cap_once
length-cap_once s h =
    let kept = take (max 1 (length s - 8)) s in
    omega (
      arith,
      byte_len-le s,
      length-append (rstrip kept) (0x2026 ∷ []),
      length-rstrip kept,
      length-take (max 1 (length s - 8)) s,
    )

cap_loop_bounds :
    (fuel : ℕ) (s : Text) → length s ≤ fuel → byte_len (cap_loop fuel s) ≤ max_message_text_bytes
unfolding cap_loop
cap_loop_bounds zero s h = omega (arith, byte_len-le s)
cap_loop_bounds (suc fuel) s h = elim (Bool-cases (ltb max_message_text_bytes (byte_len s))) [
  | inl e ↦
      let over : max_message_text_bytes < byte_len s = ground arith in
      rw e (cap_loop_bounds fuel (cap_once s) (omega (arith, length-cap_once s over)))
  | inr e ↦ rw e (ground arith)
]

cap_text-le : (s : Text) → byte_len (cap_text s) ≤ max_message_text_bytes
unfolding cap_text
cap_text-le s = cap_loop_bounds (length s) s (omega arith)

-- Whatever the text, the line that `channel_say` builds for it has at most 512 bytes with its line
-- end, if the channel's name has at most 140 bytes: the cutting loop ends below its limit.
pub privmsg_line-cap_text :
    (channel s : Text)
    → byte_len channel ≤ 140
    → byte_len (privmsg_line channel (cap_text s)) + 2 ≤ 512
unfolding byte_len
privmsg_line-cap_text channel s h =
    omega (arith, byte_len-append channel (text " :" ++ cap_text s), cap_text-le s)
