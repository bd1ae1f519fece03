-- ===== src/Announce/Bot/Commits/Wrapped.antt =====
-- The soft wrap of a commit's message: it ends within its fuel, and its lines are short.
use orochi.Prelude.{
  ℕ, zero, suc, ◌-◌, ◌≤◌, ◌<◌, Option, none, some, List, [], ◌∷◌, ◌≡◌, ◌⊎◌, inl, inr, arith, Bool,
  true, false, if◌then◌else◌, Bool-cases, All, All-append, length, ltb, drop, take, length-take,
}
use orochi.Text.{Text, is_empty, lstrip, strip, is_space}
use orochi.Text.Split.{splitlines}
use orochi.Announce.Chunks.{byte_len}
use orochi.Announce.Config.{Project}
use orochi.Announce.World.{World, git}
use orochi.Announce.Bot.HardCap.{byte_len-le}
use orochi.Announce.Bot.Commits.Body.{
  body_args, rfind_space, wide_break, wrap_once, wrap_loop, wrap, is_boilerplate, explain_from,
  commit_body_explain,
}

-- Within the limit of bytes, or cut off at 220 characters.
abbrev pub IsShort : Text → Type 0
IsShort l = (byte_len l ≤ 336) ⊎ (length l ≤ 220)

length-take_le : (n : ℕ) (s : Text) → length (take n s) ≤ length s
length-take_le zero s = omega arith
length-take_le (suc n) [] = omega arith
length-take_le (suc n) (c ∷ s) = omega (arith, length-take_le n s)

length-drop : (n : ℕ) (s : Text) → length (drop n s) ≡ length s - n
length-drop zero s = omega arith
length-drop (suc n) [] = omega arith
length-drop (suc n) (c ∷ s) = omega (arith, length-drop n s)

length-lstrip : (s : Text) → length (lstrip s) ≤ length s
unfolding lstrip
length-lstrip [] = omega arith
length-lstrip (c ∷ s) = elim (Bool-cases (is_space c)) [
  | inl e ↦ rw (e) (omega (arith, length-lstrip s))
  | inr e ↦ rw (e) (omega arith)
]

module _ (t : Text) (filled : 0 < length t) where
  length-wide_break : (o : Option ℕ) → length (wide_break t o).0 ≤ 220
  length-wide_break none = length-take 220 t
  length-wide_break (some n) = elim (Bool-cases (ltb 80 n)) [
    | inl e ↦ rw e (omega (arith, length-take_le n (take 220 t), length-take 220 t))
    | inr e ↦ rw e (length-take 220 t)
  ]

  wide_break-rest : (o : Option ℕ) → length (wide_break t o).1 < length t
  wide_break-rest none = omega (arith, length-drop 220 t)
  wide_break-rest (some n) = elim (Bool-cases (ltb 80 n)) [
    | inl e ↦
        let far : 80 < n = ground arith in
        rw e (omega (arith, length-lstrip (drop n t), length-drop n t))
    | inr e ↦ rw e (omega (arith, length-drop 220 t))
  ]

wrap_loop-IsShort : (fuel : ℕ) (t : Text) → length t ≤ fuel → All IsShort (wrap_loop fuel t)
unfolding wrap_loop wrap_once
wrap_loop-IsShort zero t h = (inl (omega (arith, byte_len-le t)), tt)
wrap_loop-IsShort (suc fuel) t h = elim (Bool-cases (ltb 336 (byte_len t))) [
  | inl e ↦
      let long : 336 < byte_len t = ground arith in
      let filled : 0 < length t = omega (arith, byte_len-le t) in
      let o = rfind_space (take 220 t) in
      let shorter = wide_break-rest t filled o in
      rw e (
        inr (length-wide_break t filled o),
        wrap_loop-IsShort fuel (wide_break t o).1 (omega arith),
      )
  | inr e ↦ rw e (inl (ground arith), tt)
]

explain_from-IsShort : (ls : List Text) → All IsShort (explain_from ls)
unfolding explain_from wrap
explain_from-IsShort [] = tt
explain_from-IsShort (l ∷ ls) =
    let t = strip l in
    let rest = explain_from-IsShort ls in
    let both =
      All-append IsShort (wrap t) (explain_from ls) (wrap_loop-IsShort (length t) t (omega arith))
        rest in
    All-if (is_empty t) _ _ rest (All-if (is_boilerplate t) _ _ rest both)
  where
    All-if :
        (b : Bool) (xs ys : List Text)
        → All IsShort xs
        → All IsShort ys
        → All IsShort (if b then xs else ys)
    All-if true xs ys f g = f
    All-if false xs ys f g = g

All-take : (n : ℕ) (ls : List Text) → All IsShort ls → All IsShort (take n ls)
All-take zero ls h = tt
All-take (suc n) [] h = tt
All-take (suc n) (l ∷ ls) h = (h.0, All-take n ls h.1)

-- Whatever the message, `commit_body_explain` gives at most three lines, each of at most 336 bytes
-- or of at most 220 characters: the soft wrap ends.
pub commit_body_explain_bounds :
    (w : World) (p : Project) (rev : Text)
    → (length (commit_body_explain w p rev) ≤ 3) × All IsShort (commit_body_explain w p rev)
unfolding commit_body_explain
commit_body_explain_bounds w p rev =
    let lines = explain_from (splitlines (git w p (body_args rev))) in
    (
      length-take 3 lines,
      All-take 3 lines (explain_from-IsShort (splitlines (git w p (body_args rev)))),
    )
