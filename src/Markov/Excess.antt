-- ===== src/Markov/Excess.antt =====
-- modules/markov/markov.go: what `deriveReverse` finds in a chain, the windows that end at a node.
use botje.Prelude.{
  ℕ, ◌+◌, ◌-◌, ◌*◌, ◌≤◌, List, [], ◌∷◌, ltb, ◌==◌, nat_eq, nat_beq_iff, arith, ◌≡◌, refl, ◌∙◌, ap,
  Bool-cases, inl, inr,
}
use botje.Markov.Trie.{
  Cnode, node, Kids, no_kids, kid, empty_node, on_child, grown, add_path, count_of, child_sum,
}

-- No node counts less than its children.
unfoldable mutual
  pub IsBalanced : Cnode → Type 0
  IsBalanced (node c ks) = (child_sum ks ≤ c) × AllBalanced ks

  pub AllBalanced : Kids → Type 0
  AllBalanced no_kids = Unit
  AllBalanced (kid w c ks) = IsBalanced c × AllBalanced ks

child_sum-on_child :
    (n w : ℕ) (f : Cnode → Cnode) (ks : Kids)
    → ((c : Cnode) → count_of (f c) ≡ count_of c + n)
    → child_sum (on_child w f ks) ≡ child_sum ks + n
unfolding on_child
child_sum-on_child n w f no_kids h = omega (arith, h empty_node)
child_sum-on_child n w f (kid v c ks) h =
    ground (arith, child_sum-on_child n w f ks h, h c, h empty_node)

grown_by : (n : ℕ) (g : Kids → Kids) (c : Cnode) → count_of (grown n g c) ≡ count_of c + n
grown_by n g (node c ks) = refl

child_sum-add_path :
    (n w : ℕ) (ws : List ℕ) (ks : Kids) → child_sum (add_path n (w ∷ ws) ks) ≡ child_sum ks + n
unfolding add_path
child_sum-add_path n w ws ks =
    child_sum-on_child n w (grown n (add_path n ws)) ks (grown_by n (add_path n ws))

on_child-AllBalanced :
    (w : ℕ) (f : Cnode → Cnode) (ks : Kids)
    → ((c : Cnode) → IsBalanced c → IsBalanced (f c))
    → AllBalanced ks
    → AllBalanced (on_child w f ks)
unfolding on_child IsBalanced
on_child-AllBalanced w f no_kids h b = (h empty_node (omega arith, tt), tt)
on_child-AllBalanced w f (kid v c ks) h b = elim (Bool-cases (v == w)) [
  | inl e ↦ rw e (h c b.0, b.1)
  | inr e ↦ elim (Bool-cases (ltb w v)) [
    | inl l ↦ rw e (rw l (h empty_node (omega arith, tt), b))
    | inr l ↦ rw e (rw l (b.0, on_child-AllBalanced w f ks h b.1))
  ]
]

pub add_path-AllBalanced :
    (n : ℕ) (ws : List ℕ) (ks : Kids) → AllBalanced ks → AllBalanced (add_path n ws ks)
unfolding add_path IsBalanced
add_path-AllBalanced n [] ks b = b
add_path-AllBalanced n (w ∷ ws) ks b =
    on_child-AllBalanced w (grown n (add_path n ws)) ks
      (λ c. grown_balanced c (λ ks. add_path-AllBalanced n ws ks)) b
  where
    sum_after : (vs : List ℕ) (ks : Kids) → child_sum (add_path n vs ks) ≤ child_sum ks + n
    sum_after [] ks = omega arith
    sum_after (v ∷ vs) ks = omega (arith, child_sum-add_path n v vs ks)

    grown_balanced :
        (c : Cnode)
        → ((ks : Kids) → AllBalanced ks → AllBalanced (add_path n ws ks))
        → IsBalanced c
        → IsBalanced (grown n (add_path n ws) c)
    grown_balanced (node c ks) rest b = (omega (arith, sum_after ws ks, b.0), rest ks b.1)

-- The sum of `f` over the windows that end in a chain, each as often as it was counted. A path has
-- its last word first.
unfoldable mutual
  pub weight : (List ℕ → ℕ) → List ℕ → Cnode → ℕ
  weight f path (node c ks) = (c - child_sum ks) * f path + weight_kids f path ks

  pub weight_kids : (List ℕ → ℕ) → List ℕ → Kids → ℕ
  weight_kids f path no_kids = 0
  weight_kids f path (kid w c ks) = weight f (w ∷ path) c + weight_kids f path ks

empty_weight : (f : List ℕ → ℕ) (path : List ℕ) → weight f path empty_node ≡ 0
unfolding weight
empty_weight f path = ground arith

weight_kids-on_child :
    (f : List ℕ → ℕ) (path : List ℕ) (w d : ℕ) (g : Cnode → Cnode) (ks : Kids)
    → ((c : Cnode) → IsBalanced c → weight f (w ∷ path) (g c) ≡ weight f (w ∷ path) c + d)
    → AllBalanced ks
    → weight_kids f path (on_child w g ks) ≡ weight_kids f path ks + d
unfolding weight on_child IsBalanced
weight_kids-on_child f path w d g no_kids h b =
    omega (arith, h empty_node (omega arith, tt), empty_weight f (w ∷ path))
weight_kids-on_child f path w d g (kid v c ks) h b = elim (Bool-cases (v == w)) [
  | inl e ↦ rw e (
      omega (
        arith,
        ap (λ x. weight f (x ∷ path) (g c)) ((nat_beq_iff v w).0 e),
        ap (λ x. weight f (x ∷ path) c) ((nat_beq_iff v w).0 e),
        h c b.0,
      ))
  | inr e ↦ elim (Bool-cases (ltb w v)) [
    | inl l ↦ rw e (rw l (omega (arith, h empty_node (omega arith, tt), empty_weight f (w ∷ path))))
    | inr l ↦ rw e (rw l (omega (arith, weight_kids-on_child f path w d g ks h b.1)))
  ]
]

-- The words of a window on top of a path, the last one first.
abbrev pub rev_onto : List ℕ → List ℕ → List ℕ
rev_onto [] path = path
rev_onto (w ∷ ws) path = rev_onto ws (w ∷ path)

distributed : (c n s x : ℕ) → s ≤ c → (c + n - s) * x ≡ (c - s) * x + n * x
distributed c n s x h = ap (λ m. m * x) (apart c n s h) ∙ spread (c - s) n x
  where
    apart : (c n s : ℕ) → s ≤ c → c + n - s ≡ (c - s) + n
    apart c n s h = omega arith

    spread : (d n x : ℕ) → (d + n) * x ≡ d * x + n * x
    spread d n x = grind arith

weight-grown :
    (f : List ℕ → ℕ) (n : ℕ) (ws path : List ℕ) (c : Cnode)
    → IsBalanced c
    → weight f path (grown n (add_path n ws) c) ≡ weight f path c + n * f (rev_onto ws path)
unfolding weight IsBalanced add_path
weight-grown f n [] path (node c ks) b =
    let spread = distributed c n (child_sum ks) (f path) b.0 in omega (arith, spread)
weight-grown f n (w ∷ ws) path (node c ks) b =
    let kids =
      weight_kids-on_child f path w (n * f (rev_onto ws (w ∷ path))) (grown n (add_path n ws)) ks
        (weight-grown f n ws (w ∷ path)) b.1 in
    let same = ap (λ m. m * f path) (level c n (child_sum ks) _ (child_sum-add_path n w ws ks)) in
    omega (arith, kids, same)
  where
    level : (c n s s' : ℕ) → s' ≡ s + n → c + n - s' ≡ c - s
    level c n s s' e = omega arith

pub weight_kids-add_path :
    (f : List ℕ → ℕ) (n w : ℕ) (ws path : List ℕ) (ks : Kids)
    → AllBalanced ks
    → weight_kids f path (add_path n (w ∷ ws) ks)
      ≡ weight_kids f path ks + n * f (rev_onto ws (w ∷ path))
unfolding add_path
weight_kids-add_path f n w ws path ks b =
    weight_kids-on_child f path w (n * f (rev_onto ws (w ∷ path))) (grown n (add_path n ws)) ks
      (weight-grown f n ws (w ∷ path)) b
