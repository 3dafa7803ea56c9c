-- ===== src/Core/Tests.antt =====
-- internal/core: runs of the connection and of the autojoin channels.
use botje.Session.{new_session, register, in_channel}
use botje.Prelude.{
  text_beq, lookup, ℕ, Text, codes, Bool, true, List, [], ◌∷◌, some, ◌==◌, text_eq, ◌≡◌, refl,
}
use botje.Core.Link.{Link, wire, connect, on_lines}
use botje.Core.Order.{parted, Dispatched, connect-Dispatched}
use botje.Core.Outgoing.{privmsg, add_channel, remove_channel, part_command}
use botje.Core.Limits.{adds, removes, after_changes}

abbrev lower : Text → Text
lower t = t

abbrev fold : Text → Text → Bool
fold a b = a == b

abbrev heard : List (ℕ × Text)
heard =
    (1, codes ":Bas!b@host PRIVMSG #testing :draai")
    ∷ (2, codes ":irc.example.net 001 Botje :Welcome")
    ∷ (3, codes ":Bas!b@host PRIVMSG #testing :more")
    ∷ []

abbrev begun : Link
begun = (connect (codes "example") (codes "Botje")).0

connect-Dispatched_example :
    Dispatched []
      (parted lower (codes "#testing" ∷ []) heard begun)
      (on_lines lower (codes "#testing" ∷ []) heard begun)
connect-Dispatched_example =
    connect-Dispatched lower (codes "#testing" ∷ []) (codes "example") (codes "Botje") heard

abbrev joined : Link
joined = record (connect (codes "example") (codes "Botje")).0 {
  session = record (connect (codes "example") (codes "Botje")).0.session { welcomed = true };
}

-- To a channel where the bot is not, nothing is said.
unjoined_silent :
    privmsg (codes "example") (codes "Botje") (some joined) (codes "#other") (codes "Hoi") ≡ []
unfolding privmsg connect in_channel lookup register new_session
unjoined_silent = refl

added_once :
    after_changes fold
      (adds (codes "#a") ∷ adds (codes "#a") ∷ removes (codes "#b") ∷ [])
      (codes "#b" ∷ [])
    ≡ codes "#a" ∷ []
unfolding add_channel remove_channel text_beq
added_once = refl

part_sent :
    part_command fold (codes "#b") (codes "#a" ∷ codes "#b" ∷ []) (some joined)
    ≡ (codes "#a" ∷ [], wire (codes "PART #b") ∷ [], true)
unfolding part_command text_beq
part_sent = refl
