-- ===== src/Flood/Valid.antt =====
-- internal/irc/flood/flood.go: what the rotation and the buckets have to do with one another.
use botje.Prelude.{
  keys, Unique, insert-Unique, remove-Unique, Text, text_eq, text_beq_iff, ==_refl, Bool, true,
  false, ◌≡◌, ◌≢◌, refl, ◌∙◌, sym, ap, Option, none, some, List, [], ◌∷◌, ◌++◌, lookup, insert,
  remove, is_some, or_else, lookup-insert, lookup-remove, contains, distinct, contains-append,
  contains-cons, contains-nil, distinct-cons, distinct-concat, subst, arith, inl, inr, Bool-cases,
  ◌==◌, if◌then◌else◌,
}
use botje.Flood.{
  Queue, new, push, push_to, push_high, bucket_of, pop_bucket, pop_order, pop_round_robin,
}

pub record IsValid (q : Queue) : Type 0 where
  pub unique : Unique q.buckets
  pub distinct_order : distinct q.order ≡ true
  pub covers : (b : Text) → contains b q.order ≡ is_some (lookup b q.buckets)
  pub filled : (b : Text) → lookup b q.buckets ≢ some []

pub new-IsValid : IsValid new
unfolding distinct contains lookup keys
new-IsValid = record {
  unique = refl;
  distinct_order = refl;
  covers = λ b. refl;
  filled = λ b h. cc;
}

-- A change of the other fields.
pub same-IsValid :
    {q : Queue} (r : Queue) → IsValid q → r.order ≡ q.order → r.buckets ≡ q.buckets → IsValid r
same-IsValid {q} r v o b = record {
  unique = subst Unique (sym b) v.unique;
  distinct_order = ap distinct o ∙ v.distinct_order;
  covers = λ c. ap (contains c) o ∙ v.covers c ∙ ap (λ m. is_some (lookup c m)) (sym b);
  filled = λ c h. v.filled c (ap (lookup c) (sym b) ∙ h);
}

concat-ne-nil : {A : Type 0} (xs : List A) (a : A) → xs ++ a ∷ [] ≢ []
concat-ne-nil [] a = cc
concat-ne-nil (x ∷ xs) a = cc

push_to-IsValid : (b line : Text) (q : Queue) → IsValid q → IsValid (push_to b line q)
unfolding push_to
push_to-IsValid b line q v = elim (Bool-cases (is_some (lookup b q.buckets))) [
  | inl old ↦ record {
    unique = insert-Unique b _ q.buckets v.unique;
    distinct_order = rw old v.distinct_order;
    covers = λ c. rw (old, lookup-insert) (ground (arith, v.covers c, text_beq_iff b c));
    filled = λ c.
        rw lookup-insert
          (ground (arith, v.filled c, concat-ne-nil (or_else (lookup b q.buckets) []) line));
  }
  | inr fresh ↦ record {
    unique = insert-Unique b _ q.buckets v.unique;
    distinct_order = rw fresh (distinct-concat q.order b v.distinct_order (v.covers b ∙ fresh));
    covers = λ c.
        rw (fresh, lookup-insert, contains-append)
          (unfold contains in ground (arith, v.covers c, text_beq_iff b c));
    filled = λ c.
        rw lookup-insert
          (ground (arith, v.filled c, concat-ne-nil (or_else (lookup b q.buckets) []) line));
  }
]

pub push-IsValid : (line : Text) (q : Queue) → IsValid q → IsValid (push line q)
unfolding push
push-IsValid line q v = push_to-IsValid (bucket_of line) line q v

pub push_high-IsValid : (line : Text) (q : Queue) → IsValid q → IsValid (push_high line q)
unfolding push_high
push_high-IsValid line q v = same-IsValid _ v refl refl

abbrev pub is_nil {ℓ} : {A : Type ℓ} → List A → Bool
is_nil [] = true
is_nil (x ∷ xs) = false

-- What a pop from a valid queue does: the bucket, the line and what is left of each.
pub record Popped (q : Queue) (b : Text) (rest : List Text) : Type 0 where
  pub line : Text
  pub lines : List Text
  pub after : Queue
  pub was : lookup b q.buckets ≡ some (line ∷ lines)
  pub result : pop_round_robin q ≡ some (line, after)
  pub unique : Unique q.buckets → Unique after.buckets
  pub bucketed :
      after.buckets ≡ (if is_nil lines then remove b q.buckets else insert b lines q.buckets)
  pub kept :
      (c : Text)
      → lookup c after.buckets
        ≡ (if b == c then (if is_nil lines then none else some lines) else lookup c q.buckets)
  pub turned : after.order ≡ (if is_nil lines then rest else rest ++ b ∷ [])
  pub high : after.high ≡ q.high
  pub window : after.window ≡ q.window

Popped-by :
    (q : Queue) (b : Text) (rest : List Text) (o : Option (List Text))
    → q.order ≡ b ∷ rest
    → lookup b q.buckets ≡ o
    → o ≢ none
    → o ≢ some []
    → Popped q b rest
unfolding pop_round_robin
Popped-by q b rest none order found some_lines some_line = absurd (some_lines refl)
Popped-by q b rest (some []) order found some_lines some_line = absurd (some_line refl)
Popped-by q b rest (some (line ∷ [])) order found some_lines some_line = record {
  line = line;
  lines = [];
  after = record q { order = rest; buckets = remove b q.buckets };
  was = found;
  result = rw (order, pop_order) (rw (found, pop_bucket));
  unique = remove-Unique b q.buckets;
  bucketed = refl;
  kept = λ c. lookup-remove b c q.buckets;
  turned = refl;
  high = refl;
  window = refl;
}
Popped-by q b rest (some (line ∷ l ∷ ls)) order found some_lines some_line = record {
  line = line;
  lines = l ∷ ls;
  after = record q { order = rest ++ b ∷ []; buckets = insert b (l ∷ ls) q.buckets };
  was = found;
  result = rw (order, pop_order) (rw (found, pop_bucket));
  unique = insert-Unique b (l ∷ ls) q.buckets;
  bucketed = refl;
  kept = λ c. lookup-insert b c (l ∷ ls) q.buckets;
  turned = refl;
  high = refl;
  window = refl;
}

heads_order :
    (q : Queue) (b : Text) (rest : List Text) → q.order ≡ b ∷ rest → contains b q.order ≡ true
heads_order q b rest order = rw order (rw contains-cons (rw (==_refl b)))

pub popped :
    (q : Queue) (b : Text) (rest : List Text) → IsValid q → q.order ≡ b ∷ rest → Popped q b rest
popped q b rest v order =
    Popped-by q b rest (lookup b q.buckets) order refl
      (λ missing. ground (arith, v.covers b, heads_order q b rest order)) (v.filled b)

pub Popped-IsValid :
    (q : Queue) (b : Text) (rest : List Text)
    → IsValid q
    → q.order ≡ b ∷ rest
    → (p : Popped q b rest) → IsValid p.after
Popped-IsValid q b rest v order p =
    let split = distinct-cons b rest (subst (λ o. distinct o ≡ true) order v.distinct_order) in
    record {
      unique = p.unique v.unique;
      distinct_order =
          ground (arith, p.turned, split.0, split.1, distinct-concat rest b split.1 split.0);
      covers = λ c.
          let before : contains c (b ∷ rest) ≡ is_some (lookup c q.buckets) =
            subst (λ o. contains c o ≡ is_some (lookup c q.buckets)) order (v.covers c) in
          ground (
            arith,
            p.turned,
            p.kept c,
            before,
            contains-cons c b rest,
            contains-cons c b [],
            contains-append c rest (b ∷ []),
            text_beq_iff b c,
            split.0,
            contains-nil c,
          );
      filled = λ c. ground (arith, p.kept c, v.filled c);
    }
