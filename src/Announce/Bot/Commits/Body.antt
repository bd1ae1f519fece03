-- ===== src/Announce/Bot/Commits/Body.antt =====
-- `commit_body_explain`: the lines of a commit's message, wrapped.
use orochi.Prelude.{
  ℕ, zero, suc, ◌-◌, Bool, true, false, Option, none, some, List, [], ◌∷◌, ◌++◌, ltb, ◌==◌,
  if◌then◌else◌, length, take, drop,
}
use orochi.Text.{Text, text, is_empty, starts_with, lstrip, strip, lower_char}
use orochi.Text.Split.{splitlines}
use orochi.Announce.Chunks.{byte_len, max_message_text_bytes}
use orochi.Announce.Config.{Project}
use orochi.Announce.World.{World, git}

-- Case as `re.I` forgets it before an ASCII letter: two letters outside ASCII count as `i` and one
-- as `s` besides those that lower case shows.
abbrev fold : Text → Text
fold [] = []
fold (c ∷ s) =
    (if c == 0x17f
      then b's' ∷ []
      else if c == 0x131
      then b'i' ∷ []
      else if c == 0x130
      then b'i' ∷ []
      else lower_char c)
    ++ fold s

abbrev any_prefix : List Text → Text → Bool
any_prefix [] s = false
any_prefix (p ∷ ps) s = if starts_with s p then true else any_prefix ps s

-- Co-authors and the like.
unfoldable pub is_boilerplate : Text → Bool
unfolding starts_with lower_char
is_boilerplate s =
    any_prefix
      (text "co-authored-by:"
        ∷ text "signed-off-by:"
        ∷ text "reviewed-by:"
        ∷ text "made-with:"
        ∷ text "change-id:"
        ∷ [])
      (fold s)

abbrev later_space : Bool → Option ℕ → Option ℕ
later_space here (some n) = some (suc n)
later_space here none = if here then some 0 else none

-- `s.rfind(" ")`; `none` is -1.
unfoldable pub rfind_space : Text → Option ℕ
rfind_space [] = none
rfind_space (c ∷ s) = later_space (c == b' ') (rfind_space s)

abbrev pub wide_break : Text → Option ℕ → Text × Text
wide_break t none = (take 220 t, drop 220 t)
wide_break t (some n) =
    if ltb 80 n then (take n (take 220 t), lstrip (drop n t)) else (take 220 t, drop 220 t)

-- One round of the soft wrap: the line that is cut off, and the remaining text.
unfoldable pub wrap_once : Text → Text × Text
unfolding rfind_space lstrip
wrap_once t = wide_break t (rfind_space (take 220 t))

-- The lines of one text, with fuel.
unfoldable pub wrap_loop : ℕ → Text → List Text
unfolding wrap_once byte_len
wrap_loop zero t = t ∷ []
wrap_loop (suc fuel) t =
    let (line, rest) = wrap_once t in
    let more = wrap_loop fuel rest in
    if ltb (max_message_text_bytes - 24) (byte_len t) then line ∷ more else t ∷ []

-- Every round takes a character at least, so the length is fuel enough.
unfoldable pub wrap : Text → List Text
unfolding wrap_loop
wrap t = wrap_loop (length t) t

unfoldable pub explain_from : List Text → List Text
unfolding strip is_boilerplate wrap
explain_from [] = []
explain_from (l ∷ ls) =
    let t = strip l in
    if is_empty t
    then explain_from ls
    else if is_boilerplate t
    then explain_from ls
    else wrap t ++ explain_from ls

abbrev pub body_args : Text → List Text
body_args rev = text "log" ∷ text "-1" ∷ text "--format=%b" ∷ rev ∷ []

-- `commit_body_explain`: lines are appended one by one until there are three.
unfoldable pub commit_body_explain : World → Project → Text → List Text
unfolding git splitlines explain_from
commit_body_explain w p rev = take 3 (explain_from (splitlines (git w p (body_args rev))))
