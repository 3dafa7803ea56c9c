-- ===== src/Wrap/Tests.antt =====
-- internal/format/wrap.go: messages that are wrapped, and the theorems at them.
use botje.Prelude.{codes, [], ◌∷◌, ◌≡◌, refl, arith, is_space}
use botje.Wrap.{split_message, split_blanks, max_line}
use botje.Wrap.Bounds.{Fits, split_message-Fits}

split_blanks_two : split_blanks (codes "a  b") ≡ codes "a" ∷ codes "b" ∷ []
unfolding split_blanks is_space
split_blanks_two = refl

split_message-Fits_example : Fits max_line (split_message (codes "PRIVMSG #a :") (codes "hello"))
split_message-Fits_example = split_message-Fits (codes "PRIVMSG #a :") (codes "hello") (omega arith)
