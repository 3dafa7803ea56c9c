-- ===== src/Markov/Trie.antt =====
-- modules/markov/compact.go and markov.go: the nodes of a chain.
use botje.Prelude.{ℕ, ◌+◌, ◌-◌, List, [], ◌∷◌, Option, none, some, ltb, ◌==◌, nat_eq, if◌then◌else◌}

-- `cnode`, and the slice of its `kid`s.
mutual
  pub data Cnode : Type 0 where
    node : ℕ → Kids → Cnode

  pub data Kids : Type 0 where
    no_kids : Kids
    kid : ℕ → Cnode → Kids → Kids

abbrev pub empty_node : Cnode
empty_node = node 0 no_kids

-- `child`
unfoldable pub child : ℕ → Kids → Option Cnode
child w no_kids = none
child w (kid v c ks) =
    let later = child w ks in if v == w then some c else if ltb w v then none else later

-- `ensureChild`, and what is done to the child.
unfoldable pub on_child : ℕ → (Cnode → Cnode) → Kids → Kids
on_child w f no_kids = kid w (f empty_node) no_kids
on_child w f (kid v c ks) =
    let later = on_child w f ks in
    if v == w
    then kid v (f c) ks
    else if ltb w v
    then kid w (f empty_node) (kid v c ks)
    else kid v c later

abbrev pub grown : ℕ → (Kids → Kids) → Cnode → Cnode
grown n g (node c ks) = node (c + n) (g ks)

-- A window is counted `n` times along its words: the loop of `learnTokens`, and of `insertReversed`.
unfoldable pub add_path : ℕ → List ℕ → Kids → Kids
unfolding on_child
add_path n [] ks = ks
add_path n (w ∷ ws) ks = on_child w (grown n (add_path n ws)) ks

abbrev pub count_of : Cnode → ℕ
count_of (node c ks) = c

-- `childSum`
abbrev pub child_sum : Kids → ℕ
child_sum no_kids = 0
child_sum (kid w c ks) = count_of c + child_sum ks

-- `walk` of `deriveReverse`. The path has its last word first, which is how it is inserted.
unfoldable mutual
  unfolding add_path

  pub walk : List ℕ → Cnode → Kids → Kids
  walk path (node c ks) rev =
      let rest = walk_kids path ks rev in
      let excess = c - child_sum ks in if ltb 0 excess then add_path excess path rest else rest

  pub walk_kids : List ℕ → Kids → Kids → Kids
  walk_kids path no_kids rev = rev
  walk_kids path (kid w c ks) rev = walk_kids path ks (walk (w ∷ path) c rev)
