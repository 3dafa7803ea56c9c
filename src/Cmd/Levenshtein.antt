-- ===== src/Cmd/Levenshtein.antt =====
-- internal/irc/cmd/cmd.go: `levenshtein`, against the recursive edit distance.
use botje.Prelude.{
  ℕ, suc, ◌+◌, min, Text, List, [], ◌∷◌, length, runes, if◌then◌else◌, ◌==◌, text_eq, ◌≡◌, refl,
  ◌∙◌, sym, ap, arith,
}

-- Runes are equal if their bytes are.
pub cost : Text → Text → ℕ
cost a b = if a == b then 0 else 1

-- `cur[j+1]` and what follows, from `cur[j]`, `prev[j]` and the rest of `prev`.
pub row : Text → ℕ → ℕ → List ℕ → List Text → List ℕ
row a left diagonal (up ∷ ups) (b ∷ bs) =
    let here = min (min (diagonal + cost a b) (up + 1)) (left + 1) in here ∷ row a here up ups bs
row a left diagonal _ _ = []

-- One round of the outer loop: `cur[0] = i + 1` and the inner loop.
next_row : Text → ℕ → List Text → List ℕ → List ℕ
next_row a i bs [] = []
next_row a i bs (p ∷ ps) = (i + 1) ∷ row a (i + 1) p ps bs

rows : ℕ → List Text → List Text → List ℕ → List ℕ
rows i [] bs prev = prev
rows i (a ∷ as') bs prev = rows (i + 1) as' bs (next_row a i bs prev)

-- `prev[j] = j`
count_up : ℕ → List Text → List ℕ
count_up j [] = j ∷ []
count_up j (b ∷ bs) = j ∷ count_up (j + 1) bs

last_or : ℕ → List ℕ → ℕ
last_or d [] = d
last_or d (x ∷ xs) = last_or x xs

distance_rows : List Text → List Text → ℕ
unfolding rows next_row row cost count_up last_or
distance_rows ras rbs = last_or 0 (rows 0 ras rbs (count_up 0 rbs))

unfoldable pub levenshtein : Text → Text → ℕ
unfolding distance_rows
levenshtein a b = distance_rows (runes a) (runes b)

-- The edit distance of two lists of runes, from their ends: a rune more, a rune less, or the last
-- runes against one another.
pub edit_distance : List Text → List Text → ℕ
edit_distance [] ys = length ys
edit_distance (x ∷ xs) [] = suc (length xs)
edit_distance (x ∷ xs) (y ∷ ys) =
    min (min (edit_distance xs ys + cost x y) (edit_distance xs (y ∷ ys) + 1))
      (edit_distance (x ∷ xs) ys + 1)

-- The row that belongs to `xs`, over the prefixes of `ys` grown by `bs`.
abbrev distances : List Text → List Text → List Text → List ℕ
distances xs ys [] = edit_distance xs ys ∷ []
distances xs ys (b ∷ bs) = edit_distance xs ys ∷ distances xs (b ∷ ys) bs

-- The same without its first entry.
abbrev grown : List Text → List Text → List Text → List ℕ
grown xs ys [] = []
grown xs ys (b ∷ bs) = edit_distance xs (b ∷ ys) ∷ grown xs (b ∷ ys) bs

distances-grown :
    (xs ys bs : List Text) → distances xs ys bs ≡ (edit_distance xs ys ∷ grown xs ys bs)
distances-grown xs ys [] = refl
distances-grown xs ys (b ∷ bs) = ap (λ r. edit_distance xs ys ∷ r) (distances-grown xs (b ∷ ys) bs)

row-grown :
    (x : Text) (xs ys bs : List Text)
    → row x (edit_distance (x ∷ xs) ys) (edit_distance xs ys) (grown xs ys bs) bs
      ≡ grown (x ∷ xs) ys bs
unfolding row edit_distance
row-grown x xs ys [] = refl
row-grown x xs ys (b ∷ bs) =
    ap (λ r. edit_distance (x ∷ xs) (b ∷ ys) ∷ r) (row-grown x xs (b ∷ ys) bs)

next_row-distances :
    (x : Text) (xs bs : List Text) (i : ℕ)
    → i ≡ length xs
    → next_row x i bs (distances xs [] bs) ≡ distances (x ∷ xs) [] bs
unfolding next_row edit_distance
next_row-distances x xs bs i at =
    ap (next_row x i bs) (distances-grown xs [] bs)
    ∙ ap (λ k. k ∷ row x k (edit_distance xs []) (grown xs [] bs) bs) (start at)
    ∙ ap (λ r. edit_distance (x ∷ xs) [] ∷ r) (row-grown x xs [] bs)
    ∙ sym (distances-grown (x ∷ xs) [] bs)
  where
    start : i ≡ length xs → i + 1 ≡ suc (length xs)
    start e = omega arith

abbrev pub reverse_onto : List Text → List Text → List Text
reverse_onto [] ys = ys
reverse_onto (x ∷ xs) ys = reverse_onto xs (x ∷ ys)

rows-distances :
    (ras xs bs : List Text) (i : ℕ)
    → i ≡ length xs
    → rows i ras bs (distances xs [] bs) ≡ distances (reverse_onto ras xs) [] bs
unfolding rows
rows-distances [] xs bs i at = refl
rows-distances (x ∷ ras) xs bs i at =
    ap (rows (i + 1) ras bs) (next_row-distances x xs bs i at)
    ∙ rows-distances ras (x ∷ xs) bs (i + 1) (omega arith)

count_up-distances :
    (bs ys : List Text) (j : ℕ) → j ≡ length ys → count_up j bs ≡ distances [] ys bs
unfolding count_up edit_distance
count_up-distances [] ys j at = ap (λ k. k ∷ []) at
count_up-distances (b ∷ bs) ys j at =
    ap (λ r. j ∷ r) (count_up-distances bs (b ∷ ys) (j + 1) (omega arith))
    ∙ ap (λ k. k ∷ distances [] (b ∷ ys) bs) at

last-distances :
    (d : ℕ) (xs ys bs : List Text)
    → last_or d (distances xs ys bs) ≡ edit_distance xs (reverse_onto bs ys)
unfolding last_or
last-distances d xs ys [] = refl
last-distances d xs ys (b ∷ bs) = last-distances (edit_distance xs ys) xs (b ∷ ys) bs

-- The runes from the end.
abbrev pub backwards : List Text → List Text
backwards rs = reverse_onto rs []

-- The two rolling rows compute the edit distance that the recursion over the ends defines.
pub levenshtein-edit_distance :
    (a b : Text) → levenshtein a b ≡ edit_distance (backwards (runes a)) (backwards (runes b))
unfolding levenshtein
levenshtein-edit_distance a b =
    ap (λ r. last_or 0 (rows 0 (runes a) (runes b) r)) (count_up-distances (runes b) [] 0 refl)
    ∙ ap (last_or 0) (rows-distances (runes a) [] (runes b) 0 refl)
    ∙ last-distances 0 (backwards (runes a)) [] (runes b)
