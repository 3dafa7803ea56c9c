-- ===== src/Wrap/Bounds.antt =====
-- internal/format/wrap.go: the lengths of the lines.
use botje.Prelude.{
  ℕ, zero, suc, ◌+◌, ◌-◌, ◌≤◌, Text, List, [], ◌∷◌, ◌++◌, map, length, length-append, All,
  All-append, runes-length, ltb, tests, runes, arith, Bool-cases, inl, inr,
}
use botje.Wrap.{
  split_blanks, chunks, split_big_word, fill, lines_in, wrap_words, wrap_text, split_message,
  max_line,
}

abbrev pub Fits : ℕ → List Text → Type 0
Fits max ls = All (λ l. length l ≤ max) ls

-- The chunk at hand, with the rune that comes next.
abbrev with_next : Text → List Text → ℕ
with_next part [] = length part
with_next part (r ∷ rs) = length part + length r

chunks-Fits :
    (max : ℕ) (part : Text) (rs : List Text)
    → Fits max rs
    → with_next part rs ≤ max
    → Fits max (chunks max part rs)
unfolding chunks
chunks-Fits max [] [] f room = tt
chunks-Fits max (c ∷ part) [] f room = (room, tt)
chunks-Fits max [] (r ∷ []) f room = chunks-Fits max r [] tt (omega arith)
chunks-Fits max (c ∷ part) (r ∷ []) f room =
    chunks-Fits max (c ∷ part ++ r) [] tt (omega (arith, length-append (c ∷ part) r))
chunks-Fits max part (r ∷ next ∷ rs) f room =
    elim (Bool-cases (ltb max (length (part ++ r) + length next))) [
      | inl flush ↦
          rw flush
            (omega (arith, length-append part r), chunks-Fits max [] (next ∷ rs) f.1 (omega arith))
      | inr grow ↦ rw grow (chunks-Fits max (part ++ r) (next ∷ rs) f.1 (omega tests))
    ]

split_big_word-Fits : (w : Text) (max : ℕ) → 4 ≤ max → Fits max (split_big_word w max)
unfolding split_big_word
split_big_word-Fits w max h = start (runes w) (runes-length w)
  where
    widen : (rs : List Text) → All (λ r. length r ≤ 4) rs → Fits max rs
    widen [] s = tt
    widen (r ∷ rs) s = (omega arith, widen rs s.1)

    start : (rs : List Text) → All (λ r. length r ≤ 4) rs → Fits max (chunks max [] rs)
    start [] s = chunks-Fits max [] [] tt (omega arith)
    start (r ∷ rs) s = chunks-Fits max [] (r ∷ rs) (widen (r ∷ rs) s) (omega arith)

fill-le :
    (max : ℕ) (line : Text) (ws : List Text) → length line ≤ max → length (fill max line ws).0 ≤ max
unfolding fill
fill-le max line [] h = h
fill-le max line (w ∷ ws) h = elim (Bool-cases (ltb (length line + 1 + length w) max)) [
  | inl more ↦
      rw more (fill-le max (line ++ b' ' ∷ w) ws (omega (tests, length-append line (b' ' ∷ w))))
  | inr full ↦ rw full h
]

lines_in-Fits : (fuel max : ℕ) (ws : List Text) → 4 ≤ max → Fits max (lines_in fuel max ws)
unfolding lines_in
lines_in-Fits zero max ws h = tt
lines_in-Fits (suc fuel) max [] h = tt
lines_in-Fits (suc fuel) max (w ∷ ws) h = elim (Bool-cases (ltb max (length w))) [
  | inl big ↦ rw big (
      All-append _ (split_big_word w max) _ (split_big_word-Fits w max h)
        (lines_in-Fits fuel max ws h))
  | inr small ↦
      rw small (fill-le max w ws (omega tests), lines_in-Fits fuel max (fill max w ws).1 h)
]

-- No wrapped line is longer than `maxBytes`, if a rune fits a line at all.
pub wrap_text-Fits : (msg : Text) (max : ℕ) → 4 ≤ max → Fits max (wrap_text msg max)
unfolding wrap_text wrap_words
wrap_text-Fits msg max h = go (split_blanks msg)
  where
    go : (ws : List Text) → Fits max (wrap_words max ws)
    go [] = tt
    go ([] ∷ []) = tt
    go ((c ∷ w) ∷ []) = lines_in-Fits 1 max ((c ∷ w) ∷ []) h
    go ([] ∷ v ∷ ws) = lines_in-Fits (suc (suc (length ws))) max ([] ∷ v ∷ ws) h
    go ((c ∷ w) ∷ v ∷ ws) = lines_in-Fits (suc (suc (length ws))) max ((c ∷ w) ∷ v ∷ ws) h

prefixed :
    (prefix : Text) (ls : List Text)
    → length prefix ≤ max_line
    → Fits (max_line - length prefix) ls
    → Fits max_line (map (λ l. prefix ++ l) ls)
prefixed prefix [] h f = tt
prefixed prefix (l ∷ ls) h f = (omega (arith, length-append prefix l), prefixed prefix ls h f.1)

-- With a prefix that leaves room for a rune, every line for the wire has at most 448 bytes.
pub split_message-Fits :
    (prefix msg : Text) → length prefix ≤ 444 → Fits max_line (split_message prefix msg)
unfolding split_message
split_message-Fits prefix msg h = elim (Bool-cases (ltb (length prefix + length msg) max_line)) [
  | inl short ↦ rw short (omega (tests, length-append prefix msg), tt)
  | inr long ↦ rw long (
      prefixed prefix _ (omega arith) (wrap_text-Fits msg (max_line - length prefix) (omega arith)))
]
