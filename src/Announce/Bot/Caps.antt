-- ===== src/Announce/Bot/Caps.antt =====
-- The capability negotiation of tools/announce_bot.py: `cap_end` and `handle_cap`.
use orochi.Prelude.{Bool, true, not, ◌&&◌, Option, none, some, List, [], ◌∷◌, ◌++◌, if◌then◌else◌}
use orochi.Text.{Text, text, is_empty, same, member, add, add_all, join}
use orochi.Text.Split.{words, cut, split_on}
use orochi.Text.Order.{sorted}
use orochi.Announce.Config.{Config, want_caps}
use orochi.Announce.World.{World}
use orochi.Announce.Bot.{Bot, send_raw}

unfoldable pub cap_end : World → Bot → Bot
cap_end w b =
    let sent = send_raw w (text "CAP END") (record b { cap_ended = true }) in
    if b.cap_ended then b else sent

-- `parts[n]`, for the words of a line; the empty text where there are not enough.
abbrev pub fourth : List Text → Text
fourth (_ ∷ _ ∷ _ ∷ d ∷ _) = d
fourth _ = []

abbrev pub fifth : List Text → Text
fifth (_ ∷ _ ∷ _ ∷ _ ∷ e ∷ _) = e
fifth _ = []

abbrev behind_cut : Option (Text × Text) → List Text
behind_cut none = []
behind_cut (some (a, b)) = words b

-- The capabilities behind the first ` :`.
unfoldable pub offered_caps : Text → List Text
unfolding cut words
offered_caps line = behind_cut (cut (text " :") line)

abbrev pub first_part : List Text → Text
first_part [] = []
first_part (p ∷ _) = p

-- `set(c.split("=")[0] for c in offered)`
unfoldable pub cap_names : List Text → List Text
unfolding split_on
cap_names [] = []
cap_names (c ∷ cs) = first_part (split_on b'=' c) ∷ cap_names cs

-- The members of the first list that the second one has: `xs & ys`.
unfoldable pub both : List Text → List Text → List Text
unfolding member
both [] ys = []
both (x ∷ xs) ys = let r = both xs ys in if member x ys then x ∷ r else r

-- What is asked for, of what is offered.
unfoldable pub wanted_caps : Config → List Text → List Text
wanted_caps cfg offers =
    let want = both want_caps offers in
    if not (is_empty cfg.sasl_user) && member (text "sasl") offers
    then add (text "sasl") want
    else want

abbrev pub request_line : List Text → Text
request_line want = text "CAP REQ :" ++ join (text " ") (sorted want)

unfoldable pub request_caps : World → List Text → Bot → Bot
request_caps w [] b = cap_end w b
request_caps w (c ∷ cs) b = send_raw w (request_line (c ∷ cs)) b

unfoldable pub cap_ls : Config → World → Bool → List Text → Bot → Bot
cap_ls cfg w more offered b =
    let b' = record b { cap_ls = add_all (cap_names offered) b.cap_ls } in
    if more then b' else request_caps w (wanted_caps cfg b'.cap_ls) b'

unfoldable pub cap_ack : Config → World → List Text → Bot → Bot
cap_ack cfg w acked b =
    let b' = record b { caps = add_all acked b.caps } in
    if member (text "sasl") acked && not (is_empty cfg.sasl_user)
    then send_raw w (text "AUTHENTICATE PLAIN") (record b' { sasl_active = true })
    else cap_end w b'

-- `handle_cap(line, parts)`
unfoldable pub handle_cap : Config → World → Text → List Text → Bot → Bot
handle_cap cfg w line parts b =
    let sub = fourth parts in
    let offered = offered_caps line in
    if same sub (text "LS")
    then cap_ls cfg w (same (fifth parts) (text "*")) offered b
    else if same sub (text "ACK")
    then cap_ack cfg w offered b
    else if same sub (text "NAK")
    then cap_end w b
    else b
