-- ===== src/Markov/Interning.antt =====
-- modules/markov/compact.go: the table of words.
use botje.Prelude.{
  ℕ, zero, suc, Text, Map, true, false, List, [], ◌∷◌, ◌++◌, Option, none, some, lookup, insert,
  lookup-insert, get_elem?, length, ◌==◌, ==_refl, nat_eq, text_eq, text_beq_iff, if◌then◌else◌,
  ◌≡◌, ◌⊎◌, refl, ◌∙◌, sym, ap, subst, Bool-cases, Option-cases, inl, inr,
}
use botje.Markov.{Interner, intern_id, known_id, str, intern_all}

-- Each word has the id under which it stands.
pub record IsInverse (t : Interner) : Type 0 where
  pub back : (w : Text) (id : ℕ) → known_id w t ≡ some id → str id t ≡ some w
  pub forth : (w : Text) (id : ℕ) → str id t ≡ some w → known_id w t ≡ some id

get_elem?-end {ℓ} :
    {A : Type ℓ} (xs : List A) (a : A) → get_elem? (xs ++ a ∷ []) (length xs) ≡ some a
get_elem?-end [] a = refl
get_elem?-end (x ∷ xs) a = get_elem?-end xs a

get_elem?-kept {ℓ} :
    {A : Type ℓ} (xs : List A) (a b : A) (i : ℕ)
    → get_elem? xs i ≡ some b
    → get_elem? (xs ++ a ∷ []) i ≡ some b
get_elem?-kept [] a b i h = absurd (cc)
get_elem?-kept (x ∷ xs) a b zero h = h
get_elem?-kept (x ∷ xs) a b (suc i) h = get_elem?-kept xs a b i h

-- What is found in a list that grew by one: it was there, or it is the new one at the end.
get_elem?-grown {ℓ} :
    {A : Type ℓ} (xs : List A) (a b : A) (i : ℕ)
    → get_elem? (xs ++ a ∷ []) i ≡ some b
    → (get_elem? xs i ≡ some b) ⊎ ((i ≡ length xs) × (a ≡ b))
get_elem?-grown [] a b zero h = inr (refl, cc)
get_elem?-grown [] a b (suc i) h = absurd (cc)
get_elem?-grown (x ∷ xs) a b zero h = inl h
get_elem?-grown (x ∷ xs) a b (suc i) h = elim (get_elem?-grown xs a b i h) [
  | inl old ↦ inl old
  | inr (end, same) ↦ inr (ap suc end, same)
]

-- The id of a word is known from then on, and stands for it.
known_id-intern_id :
    (w : Text) (t : Interner) → known_id w (intern_id w t).1 ≡ some (intern_id w t).0
unfolding known_id intern_id
known_id-intern_id w t = elim (Option-cases (lookup w t.ids)) [
  | inl new ↦ rw (new, intern_id) (lookup-insert w w (length t.strs) t.ids ∙ rw (==_refl w) refl)
  | inr (id, e) ↦ rw (e, intern_id) e
]

same_value : {i j : ℕ} → ◌≡◌ {A = Option ℕ} (some i) (some j) → i ≡ j
same_value h = cc

-- An entry for a new word takes no entry away.
kept_entry :
    (w v : Text) (id at : ℕ) (m : Map Text ℕ)
    → lookup w m ≡ none
    → lookup v m ≡ some id
    → lookup v (insert w at m) ≡ some id
kept_entry w v id at m new known = lookup-insert w v at m ∙ elim (Bool-cases (w == v)) [
  | inl e ↦
      let same = ap (λ x. lookup x m) ((text_beq_iff w v).0 e) in
      absurd (nothing (sym new ∙ same ∙ known))
  | inr e ↦ rw e known
]
  where
    nothing : {i : ℕ} → ◌≡◌ {A = Option ℕ} none (some i) → ⊥
    nothing h = cc

-- No word loses its id.
known_id-kept :
    (w v : Text) (id : ℕ) (t : Interner)
    → known_id v t ≡ some id
    → known_id v (intern_id w t).1 ≡ some id
unfolding known_id intern_id
known_id-kept w v id t known = elim (Option-cases (lookup w t.ids)) [
  | inl new ↦ rw (new, intern_id) (kept_entry w v id (length t.strs) t.ids new known)
  | inr (i, e) ↦ rw (e, intern_id) known
]

new_word-back :
    (w u : Text) (id : ℕ) (t : Interner)
    → IsInverse t
    → lookup u (insert w (length t.strs) t.ids) ≡ some id
    → get_elem? (t.strs ++ w ∷ []) id ≡ some u
unfolding known_id str
new_word-back w u id t v e =
    let found = sym (lookup-insert w u (length t.strs) t.ids) ∙ e in
    elim (Bool-cases (w == u)) [
      | inl same ↦
          let here = same_value (sym (chosen same) ∙ found) in
          subst (λ i. get_elem? (t.strs ++ w ∷ []) i ≡ some u) here
            (get_elem?-end t.strs w ∙ ap some ((text_beq_iff w u).0 same))
      | inr other ↦ get_elem?-kept t.strs w u id (v.back u id (sym (passed other) ∙ found))
    ]
  where
    chosen :
        (w == u) ≡ true
        → (if w == u then some (length t.strs) else lookup u t.ids) ≡ some (length t.strs)
    chosen e = rw e refl

    passed :
        (w == u) ≡ false
        → (if w == u then some (length t.strs) else lookup u t.ids) ≡ lookup u t.ids
    passed e = rw e refl

new_word-forth :
    (w u : Text) (id : ℕ) (t : Interner)
    → IsInverse t
    → lookup w t.ids ≡ none
    → get_elem? (t.strs ++ w ∷ []) id ≡ some u
    → lookup u (insert w (length t.strs) t.ids) ≡ some id
unfolding known_id str
new_word-forth w u id t v new e = elim (get_elem?-grown t.strs w u id e) [
  | inl old ↦ kept_entry w u id (length t.strs) t.ids new (v.forth u id old)
  | inr (end, same) ↦
      lookup-insert w u (length t.strs) t.ids ∙ rw ((text_beq_iff w u).1 same) (ap some (sym end))
]

intern_id-IsInverse : (w : Text) (t : Interner) → IsInverse t → IsInverse (intern_id w t).1
unfolding known_id intern_id str
intern_id-IsInverse w t v = elim (Option-cases (lookup w t.ids)) [
  | inl new ↦
      rw (new, intern_id)
        (record {
          back = λ u id e. new_word-back w u id t v e;
          forth = λ u id e. new_word-forth w u id t v new e;
        })
  | inr (i, e) ↦ rw (e, intern_id) v
]

intern_all-kept :
    (ws : List Text) (v : Text) (id : ℕ) (t : Interner)
    → known_id v t ≡ some id
    → known_id v (intern_all ws t).1 ≡ some id
unfolding intern_all
intern_all-kept [] v id t known = known
intern_all-kept (w ∷ ws) v id t known =
    intern_all-kept ws v id (intern_id w t).1 (known_id-kept w v id t known)

pub intern_all-IsInverse :
    (ws : List Text) (t : Interner) → IsInverse t → IsInverse (intern_all ws t).1
unfolding intern_all
intern_all-IsInverse [] t v = v
intern_all-IsInverse (w ∷ ws) t v =
    intern_all-IsInverse ws (intern_id w t).1 (intern_id-IsInverse w t v)

abbrev pub strs_of : List ℕ → Interner → Option (List Text)
strs_of [] t = some []
strs_of (id ∷ ids) t = elim (str id t) [
  | none ↦ none
  | some w ↦ elim (strs_of ids t) [ none ↦ none | some ws ↦ some (w ∷ ws) ]
]

words_back :
    (ws : List Text) (t : Interner)
    → IsInverse t
    → strs_of (intern_all ws t).0 (intern_all ws t).1 ≡ some ws
unfolding intern_all
words_back [] t v = refl
words_back (w ∷ ws) t v =
    let (id, t') = intern_id w t in
    let v' = intern_id-IsInverse w t v in
    let known = intern_all-kept ws w id t' (known_id-intern_id w t) in
    let here = (intern_all-IsInverse ws t' v').back w id known in
    rw (here, strs_of) (rw (words_back ws t' v', strs_of) refl)

-- From a table in which each word has the id under which it stands, interning words leaves such a
-- table, and their ids are turned back into the words.
pub strs_of-intern_all :
    (ws : List Text) (t : Interner)
    → IsInverse t
    → IsInverse (intern_all ws t).1 × (strs_of (intern_all ws t).0 (intern_all ws t).1 ≡ some ws)
strs_of-intern_all ws t v = (intern_all-IsInverse ws t v, words_back ws t v)
