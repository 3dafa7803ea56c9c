-- ===== src/Flood/Fair.antt =====
-- internal/irc/flood/flood.go: the turns of the buckets in the rotation.
use botje.Prelude.{
  ℕ, zero, suc, Text, text_eq, text_beq_iff, true, ◌≡◌, refl, ◌∙◌, subst, Option, none, some, List,
  [], ◌∷◌, ◌++◌, lookup, or_else, lookup-insert, contains, distinct, get_elem?, distinct-cons,
  arith, ◌==◌, if◌then◌else◌, Eq,
}
use botje.Flood.{Queue, push, push_to, bucket_of, pop_round_robin}
use botje.Flood.Valid.{IsValid, Popped, popped, Popped-IsValid}

-- The pop that comes after `n` others.
pub pop_after : ℕ → Queue → Option (Text × Queue)
pop_after zero q = pop_round_robin q
pop_after (suc n) q = elim (pop_round_robin q) [ none ↦ none | some (line, q') ↦ pop_after n q' ]

get_elem?-contains :
    {A : Type 0} ⦃e : Eq A⦄ (xs : List A) (k : ℕ) (a : A)
    → get_elem? xs k ≡ some a
    → contains a xs ≡ true
unfolding contains
get_elem?-contains [] k a h = cc
get_elem?-contains ⦃e⦄ (x ∷ xs) zero a h = ground (arith, e.beq_iff x a)
get_elem?-contains (x ∷ xs) (suc k) a h = ground (arith, get_elem?-contains xs k a h)

get_elem?-append :
    {A : Type 0} (xs ys : List A) (k : ℕ) (a : A)
    → get_elem? xs k ≡ some a
    → get_elem? (xs ++ ys) k ≡ some a
get_elem?-append [] ys k a h = cc
get_elem?-append (x ∷ xs) ys zero a h = h
get_elem?-append (x ∷ xs) ys (suc k) a h = get_elem?-append xs ys k a h

-- Turn `k` in the rotation is `b`'s, and `line` is its oldest line.
pub record Turn (q : Queue) (k : ℕ) (b line : Text) : Type 0 where
  pub place : get_elem? q.order k ≡ some b
  pub oldest : (lines : List Text) × (lookup b q.buckets ≡ some (line ∷ lines))

uncons :
    {A : Type 0} (xs : List A) (k : ℕ) (a : A)
    → get_elem? xs k ≡ some a
    → (x : A) × (rest : List A) × (xs ≡ x ∷ rest)
uncons [] k a h = absurd (cc)
uncons (x ∷ rest) k a h = (x, rest, refl)

pop_after-suc :
    (n : ℕ) (q q' : Queue) (l : Text)
    → pop_round_robin q ≡ some (l, q')
    → pop_after (suc n) q ≡ pop_after n q'
unfolding pop_after
pop_after-suc n q q' l h = rw (h, pop_after)

module _ (b line : Text) where
  Turn-pop :
      (q : Queue) (k : ℕ) (c : Text) (rest : List Text)
      → IsValid q
      → Turn q (suc k) b line
      → q.order ≡ c ∷ rest
      → (p : Popped q c rest) → Turn p.after k b line
  Turn-pop q k c rest v t order p =
      let split = distinct-cons c rest (subst (λ o. distinct o ≡ true) order v.distinct_order) in
      let place : get_elem? rest k ≡ some b =
        subst (λ o. get_elem? o (suc k) ≡ some b) order t.place in
      record {
        place = ground (arith, p.turned, place, get_elem?-append rest (c ∷ []) k b place);
        oldest = (
          t.oldest.0,
          ground (
            arith,
            p.kept b,
            t.oldest.1,
            text_beq_iff c b,
            split.0,
            get_elem?-contains rest k b place,
          ),
        );
      }

  -- A bucket at place `k` of the rotation has its oldest line sent by the pop after `k` others.
  pub Turn-served :
      (q : Queue) (k : ℕ)
      → IsValid q
      → Turn q k b line
      → (after : Queue) × (pop_after k q ≡ some (line, after))
  unfolding pop_after
  Turn-served q zero v t =
      let (c, rest, order) = uncons q.order 0 b t.place in
      let p : Popped q c rest = popped q c rest v order in
      (p.after, ground (arith, p.result, p.was, t.oldest.1, t.place, order))
  Turn-served q (suc k) v t =
      let (c, rest, order) = uncons q.order (suc k) b t.place in
      let p : Popped q c rest = popped q c rest v order in
      let (after, served) =
        Turn-served p.after k (Popped-IsValid q c rest v order p)
          (Turn-pop q k c rest v t order p) in
      (after, pop_after-suc k q p.after p.line p.result ∙ served)

  -- A push, to this bucket or another, neither delays the turn nor overtakes the line.
  pub push-Turn :
      (new_line : Text) (q : Queue) (k : ℕ) → Turn q k b line → Turn (push new_line q) k b line
  unfolding push push_to
  push-Turn new_line q k t =
      let c = bucket_of new_line in
      record {
        place = ground (arith, t.place, get_elem?-append q.order (c ∷ []) k b t.place);
        oldest = (
          if c == b then t.oldest.0 ++ new_line ∷ [] else t.oldest.0,
          ground (
            arith,
            lookup-insert c b (or_else (lookup c q.buckets) [] ++ new_line ∷ []) q.buckets,
            t.oldest.1,
            text_beq_iff c b,
          ),
        );
      }
