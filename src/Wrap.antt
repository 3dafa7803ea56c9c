-- ===== src/Wrap.antt =====
-- internal/format/wrap.go: `WrapText`, `splitBigWord` and `SplitMessage`. `maxBytes` is a natural
-- number here: a prefix of more than 448 bytes, for which the source computes a negative one, is
-- not modelled. `TruncateIRC` rests on the grapheme clusters of a third-party package and is left out.
pub mod Bounds
mod Tests
use botje.Prelude.{
  ℕ, zero, suc, ◌+◌, ◌-◌, Text, codes, Bool, true, false, List, [], ◌∷◌, ◌++◌, map, length, ltb,
  is_space, runes, if◌then◌else◌,
}

starts_blank : Text → Bool
starts_blank [] = false
starts_blank (c ∷ cs) = is_space c

onto_first : ℕ → List Text → List Text
onto_first c [] = (c ∷ []) ∷ []
onto_first c (w ∷ ws) = (c ∷ w) ∷ ws

-- `wsRe.Split(msg, -1)`: what stands between the runs of white space.
pub split_blanks : Text → List Text
unfolding starts_blank onto_first
split_blanks [] = [] ∷ []
split_blanks (c ∷ cs) =
    let rest = split_blanks cs in
    if is_space c then (if starts_blank cs then rest else [] ∷ rest) else onto_first c rest

-- `splitBigWord` over the runes of the word, with the chunk at hand.
pub chunks : ℕ → Text → List Text → List Text
chunks max [] [] = []
chunks max (c ∷ part) [] = (c ∷ part) ∷ []
chunks max part (r ∷ []) = chunks max (part ++ r) []
chunks max part (r ∷ next ∷ rs) =
    let flushed = (part ++ r) ∷ chunks max [] (next ∷ rs) in
    let grown = chunks max (part ++ r) (next ∷ rs) in
    if ltb max (length (part ++ r) + length next) then flushed else grown

pub split_big_word : Text → ℕ → List Text
unfolding chunks
split_big_word word max = chunks max [] (runes word)

-- The inner loop of `WrapText`: the line, and the words that are left.
pub fill : ℕ → Text → List Text → Text × List Text
fill max line [] = (line, [])
fill max line (w ∷ ws) =
    let longer = fill max (line ++ b' ' ∷ w) ws in
    if ltb (length line + 1 + length w) max then longer else (line, w ∷ ws)

-- The outer loop, each round of which takes a word or more.
pub lines_in : ℕ → ℕ → List Text → List Text
lines_in zero max words = []
lines_in (suc fuel) max [] = []
lines_in (suc fuel) max (w ∷ ws) =
    let (line, rest) = fill max w ws in
    let big = split_big_word w max ++ lines_in fuel max ws in
    let filled = line ∷ lines_in fuel max rest in if ltb max (length w) then big else filled

wrap_words : ℕ → List Text → List Text
wrap_words max ([] ∷ []) = []
wrap_words max words = lines_in (length words) max words

pub wrap_text : Text → ℕ → List Text
unfolding wrap_words lines_in fill split_big_word split_blanks
wrap_text msg max = wrap_words max (split_blanks msg)

abbrev pub max_line : ℕ
max_line = 448

pub split_message : Text → Text → List Text
split_message prefix msg =
    if ltb (length prefix + length msg) max_line
    then (prefix ++ msg) ∷ []
    else map (λ l. prefix ++ l) (wrap_text msg (max_line - length prefix))
