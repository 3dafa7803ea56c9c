-- ===== src/Markov/Counts.antt =====
-- modules/markov: what the counts of a chain count.
use botje.Prelude.{
  ℕ, ◌+◌, Bool, true, false, ◌&&◌, List, [], ◌∷◌, Option, none, some, ◌==◌, nat_eq, nat_beq_iff,
  if◌then◌else◌, arith, ◌≡◌, refl, ◌∙◌, ap, Bool-cases, inl, inr,
}
use botje.Markov.Trie.{
  Cnode, node, Kids, no_kids, kid, empty_node, child, on_child, grown, add_path,
}

abbrev kids_of : Option Cnode → Kids
kids_of none = no_kids
kids_of (some (node c ks)) = ks

abbrev top : Option Cnode → ℕ
top none = 0
top (some (node c ks)) = c

-- The count at the end of a path, 0 where there is no such node.
unfoldable pub count_at : ℕ → List ℕ → Kids → ℕ
unfolding child
count_at w [] ks = top (child w ks)
count_at w (x ∷ xs) ks = count_at x xs (kids_of (child w ks))

-- Whether a window starts with a path.
unfoldable pub starts : List ℕ → List ℕ → Bool
starts [] ws = true
starts (p ∷ ps) [] = false
starts (p ∷ ps) (w ∷ ws) = w == p && starts ps ws

abbrev node_or_empty : Option Cnode → Cnode
node_or_empty none = empty_node
node_or_empty (some c) = c

child-on_child :
    (w x : ℕ) (f : Cnode → Cnode) (ks : Kids)
    → child x (on_child w f ks)
      ≡ (if w == x then some (f (node_or_empty (child w ks))) else child x ks)
unfolding child on_child
child-on_child w x f no_kids = ground arith
child-on_child w x f (kid v c ks) =
    ground (arith, child-on_child w x f ks, nat_beq_iff w x, nat_beq_iff v x, nat_beq_iff v w)

top-grown :
    (n : ℕ) (g : Kids → Kids) (o : Option Cnode)
    → top (some (grown n g (node_or_empty o))) ≡ top o + n
top-grown n g none = refl
top-grown n g (some (node c ks)) = refl

kids_of-grown :
    (n : ℕ) (g : Kids → Kids) (o : Option Cnode)
    → kids_of (some (grown n g (node_or_empty o))) ≡ g (kids_of o)
kids_of-grown n g none = refl
kids_of-grown n g (some (node c ks)) = refl

abbrev pub gained : ℕ → Bool → ℕ
gained n true = n
gained n false = 0

count_at-none : (x : ℕ) (xs : List ℕ) → count_at x xs no_kids ≡ 0
unfolding count_at child
count_at-none x [] = refl
count_at-none x (y ∷ ys) = count_at-none y ys

-- A window counts at each path that it starts with, and nowhere else.
pub count_at-add_path :
    (n : ℕ) (ws : List ℕ) (p : ℕ) (ps : List ℕ) (ks : Kids)
    → count_at p ps (add_path n ws ks) ≡ count_at p ps ks + gained n (starts (p ∷ ps) ws)
unfolding add_path count_at starts
count_at-add_path n [] p ps ks = omega arith
count_at-add_path n (w ∷ ws) p [] ks =
    ap top (child-on_child w p (grown n (add_path n ws)) ks) ∙ elim (Bool-cases (w == p)) [
      | inl e ↦ rw e (
          top-grown n (add_path n ws) (child w ks)
          ∙ ap (λ x. top (child x ks) + n) ((nat_beq_iff w p).0 e))
      | inr e ↦ rw e (omega arith)
    ]
count_at-add_path n (w ∷ ws) p (q ∷ qs) ks =
    ap (λ o. count_at q qs (kids_of o)) (child-on_child w p (grown n (add_path n ws)) ks)
    ∙ elim (Bool-cases (w == p)) [
      | inl e ↦ rw e (
          ap (count_at q qs) (kids_of-grown n (add_path n ws) (child w ks))
          ∙ count_at-add_path n ws q qs (kids_of (child w ks))
          ∙ ap (λ x. count_at q qs (kids_of (child x ks)) + gained n (starts (q ∷ qs) ws))
              ((nat_beq_iff w p).0 e))
      | inr e ↦ rw e (omega arith)
    ]

-- The windows, each counted once.
abbrev pub learn_all : List (List ℕ) → Kids → Kids
learn_all [] ks = ks
learn_all (win ∷ wins) ks = learn_all wins (add_path 1 win ks)

-- How many of the windows start with a path.
abbrev pub how_many : List ℕ → List (List ℕ) → ℕ
how_many path [] = 0
how_many path (win ∷ wins) = gained 1 (starts path win) + how_many path wins

-- Learning windows raises the count of a path by the number of the windows that start with it.
pub count_at-learn_all :
    (wins : List (List ℕ)) (p : ℕ) (ps : List ℕ) (ks : Kids)
    → count_at p ps (learn_all wins ks) ≡ count_at p ps ks + how_many (p ∷ ps) wins
count_at-learn_all [] p ps ks = omega arith
count_at-learn_all (win ∷ wins) p ps ks =
    omega (arith, count_at-learn_all wins p ps (add_path 1 win ks), count_at-add_path 1 win p ps ks)
