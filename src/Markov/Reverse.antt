-- ===== src/Markov/Reverse.antt =====
-- modules/markov/markov.go: what `deriveReverse` builds.
use botje.Prelude.{
  ℕ, ◌+◌, ◌-◌, ◌*◌, Bool, true, false, List, [], ◌∷◌, ltb, nat_eq, arith, ◌≡◌, ap, Bool-cases, inl,
  inr, tests,
}
use botje.Markov.Trie.{Cnode, node, Kids, no_kids, kid, add_path, child_sum, walk, walk_kids}
use botje.Markov.Counts.{
  count_at, starts, gained, learn_all, how_many, count_at-add_path, count_at-learn_all,
}
use botje.Markov.Excess.{
  AllBalanced, add_path-AllBalanced, weight, weight_kids, rev_onto, weight_kids-add_path,
}
use botje.Markov.{derive_reverse}

abbrev pub reversed_all : List (List ℕ) → List (List ℕ)
reversed_all [] = []
reversed_all (win ∷ wins) = rev_onto win [] ∷ reversed_all wins

gained-one : (n : ℕ) (b : Bool) → gained n b ≡ n * gained 1 b
gained-one n true = omega arith
gained-one n false = omega arith

module _ (p : ℕ) (ps : List ℕ) where
  -- Whether the path, as it is inserted, starts with `p ∷ ps`.
  abbrev hits : List ℕ → ℕ
  hits path = gained 1 (starts (p ∷ ps) path)

  nothing : (m : ℕ) → ltb 0 m ≡ false → m ≡ 0
  nothing m h = omega (tests, h)

  mutual
    unfolding walk weight

    count_at-walk :
        (path : List ℕ) (c : Cnode) (rev : Kids)
        → count_at p ps (walk path c rev) ≡ count_at p ps rev + weight hits path c
    count_at-walk path (node c ks) rev = elim (Bool-cases (ltb 0 (c - child_sum ks))) [
      | inl some_end ↦ rw some_end (
          omega (
            arith,
            count_at-add_path (c - child_sum ks) path p ps (walk_kids path ks rev),
            gained-one (c - child_sum ks) (starts (p ∷ ps) path),
            count_at-walk_kids path ks rev,
          ))
      | inr none_end ↦ rw none_end (
          omega (
            arith,
            ap (λ m. m * hits path) (nothing (c - child_sum ks) none_end),
            count_at-walk_kids path ks rev,
          ))
    ]

    count_at-walk_kids :
        (path : List ℕ) (ks : Kids) (rev : Kids)
        → count_at p ps (walk_kids path ks rev) ≡ count_at p ps rev + weight_kids hits path ks
    count_at-walk_kids path no_kids rev = omega arith
    count_at-walk_kids path (kid w c ks) rev =
        omega (
          arith,
          count_at-walk_kids path ks (walk (w ∷ path) c rev),
          count_at-walk (w ∷ path) c rev,
        )

  weight-learn_all :
      (wins : List (List ℕ)) (ks : Kids)
      → AllBalanced ks
      → weight_kids hits [] (learn_all wins ks)
        ≡ weight_kids hits [] ks + how_many (p ∷ ps) (reversed_all wins)
  unfolding starts add_path
  weight-learn_all [] ks b = omega arith
  weight-learn_all ([] ∷ wins) ks b = omega (arith, weight-learn_all wins ks b)
  weight-learn_all ((w ∷ ws) ∷ wins) ks b = omega (
    arith,
    weight-learn_all wins (add_path 1 (w ∷ ws) ks) (add_path-AllBalanced 1 (w ∷ ws) ks b),
    weight_kids-add_path hits 1 w ws [] ks b,
  )

  -- From the chains that any windows leave, `deriveReverse` builds an empty reverse dictionary into
  -- one that counts every path as learning those windows reversed would.
  pub derive_reverse-learn_all :
      (wins : List (List ℕ))
      → count_at p ps (derive_reverse (learn_all wins no_kids) no_kids)
        ≡ count_at p ps (learn_all (reversed_all wins) no_kids)
  unfolding derive_reverse AllBalanced weight
  derive_reverse-learn_all wins = omega (
    arith,
    count_at-walk_kids [] (learn_all wins no_kids) no_kids,
    weight-learn_all wins no_kids tt,
    count_at-learn_all (reversed_all wins) p ps no_kids,
  )
