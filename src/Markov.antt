-- ===== src/Markov.antt =====
-- modules/markov: the chains that the bot learns (markov.go) in their compact form (compact.go). A
-- count is a natural number. The map from the top words of a dictionary to their subtrees is held
-- like the children of a node, by rising word id, where `slices.BinarySearchFunc` finds a word.
pub mod Interning
pub mod Trie
pub mod Counts
pub mod Excess
pub mod Reverse
pub mod Grams
pub mod Lines
mod Tests
use botje.Prelude.{
  ℕ, zero, suc, ◌+◌, ◌-◌, Text, Map, Bool, true, false, not, ◌&&◌, ◌||◌, List, [], ◌∷◌, ◌++◌,
  Option, none, some, lookup, insert, or_else, get_elem?, length, contains, ltb, ◌==◌, nat_eq,
  text_eq, if◌then◌else◌,
}
use botje.Markov.Trie.{Kids, no_kids, add_path, walk_kids}

-- `interner`
pub record Interner : Type 0 where
  pub ids : Map Text ℕ
  pub strs : List Text

-- `id` of the interner: the id, and the interner.
pub intern_id : Text → Interner → ℕ × Interner
intern_id w t = elim (lookup w t.ids) [
  | some id ↦ (id, t)
  | none ↦ (length t.strs, record { ids = insert w (length t.strs) t.ids; strs = t.strs ++ w ∷ [] })
]

-- `lookup`
pub known_id : Text → Interner → Option ℕ
known_id w t = lookup w t.ids

-- `str`: none is a panic.
pub str : ℕ → Interner → Option Text
str id t = get_elem? t.strs id

pub intern_all : List Text → Interner → List ℕ × Interner
unfolding intern_id
intern_all [] t = ([], t)
intern_all (w ∷ ws) t =
    let (id, t') = intern_id w t in let (ids, t'') = intern_all ws t' in (id ∷ ids, t'')

module _ {A : Type 0} where
  -- The second loop of `windows`.
  pub slide : List A → List A → List (List A)
  slide prev [] = []
  slide [] (x ∷ xs) = (x ∷ []) ∷ slide [] xs
  slide (p ∷ prev) (x ∷ xs) = (p ∷ prev ++ x ∷ []) ∷ slide (prev ++ x ∷ []) xs

  pub windows_on : List A → List A → List (List A)
  unfolding slide
  windows_on prev [] = prev ∷ []
  windows_on prev (x ∷ xs) = slide prev (x ∷ xs)

  -- The first loop takes `order` tokens.
  pub filled : ℕ → List A → List A × List A
  filled zero xs = ([], xs)
  filled (suc n) [] = ([], [])
  filled (suc n) (x ∷ xs) = let (prev, rest) = filled n xs in (x ∷ prev, rest)

  -- `windows`
  pub windows : ℕ → List A → List (List A)
  unfolding filled windows_on
  windows order [] = []
  windows order (x ∷ xs) = let (prev, rest) = filled order (x ∷ xs) in windows_on prev rest

-- A dictionary, with the words that are to be saved, and the table of words.
pub record Dict : Type 0 where
  pub chains : Kids
  pub touched : List ℕ

-- One window of `learnTokens`.
learn_window : List Text → Interner × Dict → Interner × Dict
unfolding intern_all
learn_window [] (t, d) = (t, d)
learn_window (w ∷ ws) (t, d) =
    let (id, t') = intern_id w t in
    let (ids, t'') = intern_all ws t' in
    (t'', record { chains = add_path 1 (id ∷ ids) d.chains; touched = id ∷ d.touched })

learn_windows : List (List Text) → Interner × Dict → Interner × Dict
unfolding learn_window
learn_windows [] s = s
learn_windows (win ∷ wins) s = learn_windows wins (learn_window win s)

-- `learnTokens`, with the order of the chains.
pub learn_tokens : ℕ → List Text → Interner × Dict → Interner × Dict
unfolding windows learn_windows
learn_tokens order tokens s = learn_windows (windows order tokens) s

-- `deriveReverse` up to the save.
pub derive_reverse : Kids → Kids → Kids
derive_reverse main no_kids = walk_kids [] main no_kids
derive_reverse main rev = rev
