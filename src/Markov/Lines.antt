-- ===== src/Markov/Lines.antt =====
-- modules/markov/markov.go: the reverse dictionary against lines read backwards.
use botje.Prelude.{
  ℕ, zero, suc, ◌+◌, ◌-◌, ◌≤◌, List, [], ◌∷◌, ◌++◌, length, length-append, length-drop, take,
  take_all, take-append_short, drop, drop_all, drop-append, take-drop, append_assoc, append-nil,
  ltb, tests, arith, ◌≡◌, refl, ◌∙◌, sym, ap, Bool-cases, inl, inr,
}
use botje.Markov.Trie.{no_kids}
use botje.Markov.Counts.{count_at, learn_all, how_many, count_at-learn_all}
use botje.Markov.Excess.{rev_onto}
use botje.Markov.Reverse.{reversed_all, derive_reverse-learn_all}
use botje.Markov.Grams.{grams, grams_short, grams_long, windows_short, windows_long}
use botje.Markov.{windows, derive_reverse}

abbrev rev : List ℕ → List ℕ
rev xs = rev_onto xs []

rev_onto-append : (xs ys : List ℕ) → rev_onto xs ys ≡ rev xs ++ ys
rev_onto-append [] ys = refl
rev_onto-append (x ∷ xs) ys =
    rev_onto-append xs (x ∷ ys)
    ∙ sym (append_assoc (rev xs) (x ∷ []) ys)
    ∙ ap (λ r. r ++ ys) (sym (rev_onto-append xs (x ∷ [])))

rev-append : (xs ys : List ℕ) → rev (xs ++ ys) ≡ rev ys ++ rev xs
rev-append [] ys = sym (append-nil (rev ys))
rev-append (x ∷ xs) ys =
    rev_onto-append (xs ++ ys) (x ∷ [])
    ∙ ap (λ r. r ++ x ∷ []) (rev-append xs ys)
    ∙ append_assoc (rev ys) (rev xs) (x ∷ [])
    ∙ ap (λ r. rev ys ++ r) (sym (rev_onto-append xs (x ∷ [])))

length-rev_onto : (xs ys : List ℕ) → length (rev_onto xs ys) ≡ length xs + length ys
length-rev_onto [] ys = omega arith
length-rev_onto (x ∷ xs) ys = omega (arith, length-rev_onto xs (x ∷ ys))

-- The last of a line reversed is what it starts with, reversed.
drop-rev : (k n : ℕ) (xs : List ℕ) → n + k ≡ length xs → drop n (rev xs) ≡ rev (take k xs)
drop-rev k n xs h =
    let front = take k xs in
    let back = drop k xs in
    let whole : rev xs ≡ rev back ++ rev front =
      ap rev (sym (take-drop k xs)) ∙ rev-append front back in
    let exact : length (rev back) ≡ n =
      omega (arith, length-rev_onto back [], length-drop k xs, h) in
    ap (drop n) whole
    ∙ drop-append n (rev back) (rev front) (omega (arith, exact))
    ∙ ap (λ r. r ++ rev front) (drop_all n (rev back) (omega (arith, exact)))

-- One more at the end of a line, and the run that ends with it.
grams-snoc :
    (k y n : ℕ) (xs : List ℕ)
    → 1 ≤ k
    → n + k ≡ suc (length xs)
    → grams k (xs ++ y ∷ []) ≡ grams k xs ++ drop n (xs ++ y ∷ []) ∷ []
grams-snoc k y n [] one h =
    let k_one : k ≡ 1 = omega (arith, one, h) in
    let n_zero : n ≡ 0 = omega (arith, one, h) in rw k_one (rw n_zero refl)
grams-snoc k y zero (x ∷ xs) one h =
    let all = x ∷ (xs ++ y ∷ []) in
    grams_long k x (xs ++ y ∷ []) (omega (arith, h, length-append xs (y ∷ [])))
    ∙ ap (λ t. t ∷ grams k (xs ++ y ∷ []))
        (take_all k all (omega (arith, h, length-append xs (y ∷ []))))
    ∙ ap (λ g. all ∷ g) (grams_short k (xs ++ y ∷ []) (omega (arith, h, length-append xs (y ∷ []))))
    ∙ sym (ap (λ g. g ++ all ∷ []) (grams_short k (x ∷ xs) (omega (arith, h))))
grams-snoc k y (suc n) (x ∷ xs) one h =
    grams_long k x (xs ++ y ∷ []) (omega (arith, h, length-append xs (y ∷ [])))
    ∙ ap (λ t. t ∷ grams k (xs ++ y ∷ []))
        (take-append_short k (x ∷ xs) (y ∷ []) (omega (arith, h)))
    ∙ ap (λ g. take k (x ∷ xs) ∷ g) (grams-snoc k y n xs one (omega (arith, h)))
    ∙ sym (ap (λ g. g ++ drop n (xs ++ y ∷ []) ∷ []) (grams_long k x xs (omega (arith, h))))

module _ (path : List ℕ) where
  how_many-append :
      (us vs : List (List ℕ)) → how_many path (us ++ vs) ≡ how_many path us + how_many path vs
  how_many-append [] vs = omega arith
  how_many-append (u ∷ us) vs = omega (arith, how_many-append us vs)

  how_many-grams :
      (k : ℕ) (xs : List ℕ)
      → 1 ≤ k
      → how_many path (grams k (rev xs)) ≡ how_many path (reversed_all (grams k xs))
  how_many-grams k [] one = refl
  how_many-grams k (x ∷ xs) one = elim (Bool-cases (ltb (suc (length xs)) k)) [
    | inl short ↦
        ap (how_many path)
          (grams_short k (rev (x ∷ xs)) (omega (tests, short, length-rev_onto xs (x ∷ []))))
        ∙ sym (
            ap (λ g. how_many path (reversed_all g))
              (grams_short k (x ∷ xs) (omega (tests, short))))
    | inr long ↦
        let n = suc (length xs) - k in
        let fits : n + k ≡ suc (length xs) = omega (tests, long) in
        let turned = rev_onto-append xs (x ∷ []) in
        let last = ap (drop n) (sym turned) ∙ drop-rev k n (x ∷ xs) fits in
        ap (λ r. how_many path (grams k r)) turned
        ∙ ap (how_many path)
            (grams-snoc k x n (rev xs) one (omega (arith, fits, length-rev_onto xs [])))
        ∙ how_many-append (grams k (rev xs)) (drop n (rev xs ++ x ∷ []) ∷ [])
        ∙ omega (
          arith,
          how_many-grams k xs one,
          ap (λ w. how_many path (w ∷ [])) last,
          ap (λ g. how_many path (reversed_all g)) (grams_long k x xs (omega (tests, long))),
        )
  ]

  -- The windows of a line read backwards are those of the line, each read backwards.
  how_many-windows :
      (order : ℕ) (xs : List ℕ)
      → how_many path (windows order (rev xs)) ≡ how_many path (reversed_all (windows order xs))
  unfolding windows
  how_many-windows order [] = refl
  how_many-windows order (x ∷ xs) = elim (Bool-cases (ltb order (suc (length xs)))) [
    | inl long ↦
        ap (how_many path)
          (windows_long order (rev (x ∷ xs)) (omega (tests, long, length-rev_onto xs (x ∷ []))))
        ∙ how_many-grams (suc order) (x ∷ xs) (omega arith)
        ∙ sym (
            ap (λ g. how_many path (reversed_all g))
              (windows_long order (x ∷ xs) (omega (tests, long))))
    | inr short ↦
        let one = windows_short order (x ∷ xs) (omega arith) (omega (tests, short)) in
        ap (how_many path) (
          windows_short order (rev (x ∷ xs)) (omega (arith, length-rev_onto xs (x ∷ [])))
            (omega (tests, short, length-rev_onto xs (x ∷ []))))
        ∙ sym (ap (λ g. how_many path (reversed_all g)) one)
  ]

-- The windows of all lines, one line after the other.
abbrev pub all_windows : ℕ → List (List ℕ) → List (List ℕ)
all_windows order [] = []
all_windows order (l ∷ ls) = windows order l ++ all_windows order ls

reversed_all-append :
    (us vs : List (List ℕ)) → reversed_all (us ++ vs) ≡ reversed_all us ++ reversed_all vs
reversed_all-append [] vs = refl
reversed_all-append (u ∷ us) vs = ap (λ r. rev u ∷ r) (reversed_all-append us vs)

how_many-all_windows :
    (path : List ℕ) (order : ℕ) (ls : List (List ℕ))
    → how_many path (all_windows order (reversed_all ls))
      ≡ how_many path (reversed_all (all_windows order ls))
how_many-all_windows path order [] = refl
how_many-all_windows path order (l ∷ ls) =
    how_many-append path (windows order (rev l)) (all_windows order (reversed_all ls))
    ∙ omega (
      arith,
      how_many-windows path order l,
      how_many-all_windows path order ls,
      how_many-append path (reversed_all (windows order l)) (reversed_all (all_windows order ls)),
      ap (how_many path) (reversed_all-append (windows order l) (all_windows order ls)),
    )

-- From the chains that any lines leave, at any order, `deriveReverse` builds an empty reverse
-- dictionary into one that counts every path as learning those lines read backwards would.
pub derive_reverse-lines :
    (order : ℕ) (ls : List (List ℕ)) (p : ℕ) (ps : List ℕ)
    → count_at p ps (derive_reverse (learn_all (all_windows order ls) no_kids) no_kids)
      ≡ count_at p ps (learn_all (all_windows order (reversed_all ls)) no_kids)
derive_reverse-lines order ls p ps =
    derive_reverse-learn_all p ps (all_windows order ls)
    ∙ count_at-learn_all (reversed_all (all_windows order ls)) p ps no_kids
    ∙ ap (λ n. count_at p ps no_kids + n) (sym (how_many-all_windows (p ∷ ps) order ls))
    ∙ sym (count_at-learn_all (all_windows order (reversed_all ls)) p ps no_kids)
