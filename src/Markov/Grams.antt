-- ===== src/Markov/Grams.antt =====
-- modules/markov/markov.go: the windows of a line, and of the line reversed.
use botje.Prelude.{
  ℕ, zero, suc, ◌≤◌, ◌<◌, List, [], ◌∷◌, ◌++◌, length, length-append, length-drop, take, drop,
  take_all, drop_all, take-append_short, take-drop, append_assoc, ltb, tests, if◌then◌else◌, arith,
  ◌≡◌, refl, ◌∙◌, sym, ap, Bool-cases, inl, inr,
}
use botje.Markov.{slide, windows_on, filled, windows}

-- All runs of `k` neighbours.
abbrev pub grams : ℕ → List ℕ → List (List ℕ)
grams k [] = []
grams k (x ∷ xs) =
    let rest = grams k xs in if ltb (suc (length xs)) k then [] else take k (x ∷ xs) ∷ rest

pub grams_short : (k : ℕ) (xs : List ℕ) → length xs < k → grams k xs ≡ []
grams_short k [] h = refl
grams_short k (x ∷ xs) h = elim (Bool-cases (ltb (suc (length xs)) k)) [
  | inl short ↦ rw short refl
  | inr long ↦ absurd (omega (tests, long, h))
]

pub grams_long :
    (k x : ℕ) (xs : List ℕ) → k ≤ suc (length xs) → grams k (x ∷ xs) ≡ take k (x ∷ xs) ∷ grams k xs
grams_long k x xs h = elim (Bool-cases (ltb (suc (length xs)) k)) [
  | inl short ↦ absurd (omega (tests, short, h))
  | inr long ↦ rw long refl
]

take-exact : (xs ys : List ℕ) (k : ℕ) → length xs ≡ k → take k (xs ++ ys) ≡ xs
take-exact xs ys k h =
    take-append_short k xs ys (omega (arith, h)) ∙ take_all k xs (omega (arith, h))

slide-grams :
    (prev rest : List ℕ) (order : ℕ)
    → length prev ≡ order
    → slide prev rest ≡ grams (suc order) (prev ++ rest)
unfolding slide
slide-grams prev [] order h =
    sym (grams_short (suc order) (prev ++ []) (omega (arith, h, length-append prev [])))
slide-grams [] (x ∷ xs) order h =
    ap (λ g. (x ∷ []) ∷ g) (slide-grams [] xs order h)
    ∙ sym (
        grams_long (suc order) x xs (omega (arith, h))
        ∙ ap (λ n. (x ∷ take n xs) ∷ grams (suc order) xs) (sym h))
slide-grams (p ∷ prev) (x ∷ xs) order h =
    let shift = append_assoc prev (x ∷ []) xs in
    let whole = append_assoc (p ∷ prev) (x ∷ []) xs in
    ap (λ g. (p ∷ prev ++ x ∷ []) ∷ g)
      (slide-grams (prev ++ x ∷ []) xs order (omega (arith, h, length-append prev (x ∷ [])))
        ∙ ap (grams (suc order)) shift)
    ∙ ap (λ t. t ∷ grams (suc order) (prev ++ x ∷ xs))
        (sym (
          ap (take (suc order)) (sym whole)
          ∙ take-exact (p ∷ prev ++ x ∷ []) xs (suc order)
              (omega (arith, h, length-append prev (x ∷ [])))))
    ∙ sym
        (grams_long (suc order) p (prev ++ x ∷ xs) (omega (arith, h, length-append prev (x ∷ xs))))

filled_lem : (n : ℕ) (xs : List ℕ) → filled n xs ≡ (take n xs, drop n xs)
unfolding filled
filled_lem zero xs = refl
filled_lem (suc n) [] = refl
filled_lem (suc n) (x ∷ xs) = ap (λ r. (x ∷ r.0, r.1)) (filled_lem n xs)

pub windows_short :
    (order : ℕ) (xs : List ℕ) → 1 ≤ length xs → length xs ≤ order → windows order xs ≡ xs ∷ []
unfolding windows windows_on
windows_short order [] one h = absurd (omega arith)
windows_short order (x ∷ xs) one h =
    ap (λ r. windows_on r.0 r.1) (filled_lem order (x ∷ xs))
    ∙ rw (take_all order (x ∷ xs) h, drop_all order (x ∷ xs) h) refl

windows_on-grams :
    (prev rest : List ℕ) (order : ℕ)
    → length prev ≡ order
    → 1 ≤ length rest
    → windows_on prev rest ≡ grams (suc order) (prev ++ rest)
unfolding windows_on
windows_on-grams prev [] order h one = absurd (omega arith)
windows_on-grams prev (x ∷ xs) order h one = slide-grams prev (x ∷ xs) order h

pub windows_long :
    (order : ℕ) (xs : List ℕ) → order < length xs → windows order xs ≡ grams (suc order) xs
unfolding windows
windows_long order [] h = refl
windows_long order (x ∷ xs) h =
    ap (λ r. windows_on r.0 r.1) (filled_lem order (x ∷ xs))
    ∙ windows_on-grams (take order (x ∷ xs)) (drop order (x ∷ xs)) order
        (omega (
          arith,
          h,
          ap length (take-drop order (x ∷ xs)),
          length-append (take order (x ∷ xs)) (drop order (x ∷ xs)),
          length-drop order (x ∷ xs),
        ))
        (omega (arith, h, length-drop order (x ∷ xs)))
    ∙ ap (grams (suc order)) (take-drop order (x ∷ xs))
