-- ===== src/Irc/Params.antt =====
-- internal/irc/parse.go: `SplitParams`.
pub mod Render
use botje.Prelude.{
  ℕ, zero, suc, ◌+◌, ◌≤◌, Text, codes, Bool, true, false, not, ◌&&◌, ◌||◌, Option, none, some, List,
  [], ◌∷◌, ◌++◌, length, ◌==◌, nat_eq, is_space, span, trim_prefix, if◌then◌else◌,
}

-- `[^\s:]`
unfoldable pub is_middle : ℕ → Bool
is_middle c = not (is_space c) && not (c == b':')

-- `([^\s:]+)\s+` behind the leading white space: the word and what follows the match.
word_then : Text → Text → Option (Text × Text)
word_then [] rest = none
word_then (w ∷ ws) [] = none
word_then (w ∷ ws) (c ∷ cs) =
    let (blanks, rest) = span is_space (c ∷ cs) in if is_space c then some (w ∷ ws, rest) else none

-- `middleRe`
pub match_middle : Text → Option (Text × Text)
unfolding word_then
match_middle params =
    let (blanks, s) = span is_space params in
    let (word, rest) = span is_middle s in word_then word rest

trailing : Text → List Text
trailing [] = []
trailing (c ∷ cs) = trim_prefix (codes ":") (c ∷ cs) ∷ []

-- Each round takes a byte or more, so the length is fuel enough.
split_in : ℕ → Text → List Text
split_in zero params = trailing params
split_in (suc fuel) params = elim (match_middle params) [
  | none ↦ trailing params
  | some (word, rest) ↦ word ∷ split_in fuel rest
]

-- `SplitParams`
unfoldable pub split_params : Text → List Text
unfolding split_in match_middle trailing is_middle
split_params params = split_in (length params) params
