-- ===== src/Sched/Tags.antt =====
-- internal/sched/sched.go: the tags of the timers in the heap.
use botje.Prelude.{
  ℕ, suc, ◌≤◌, contains, distinct, contains-cons, contains-nil, distinct-cons, delete_if, true,
  false, not, ◌&&◌, ◌||◌, List, [], ◌∷◌, leb, All, ◌==◌, nat_eq, nat_beq_iff, arith, ◌≡◌, refl, ap,
  Bool-cases, Option-cases, inl, inr,
}
use botje.Sched.{Timer, less, heap_push, cancel_in, collect}

pub contains-delete_if :
    (tag x : ℕ) (ps : List ℕ)
    → contains x (delete_if (λ p. p == tag) ps) ≡ (not (tag == x) && contains x ps)
unfolding contains
contains-delete_if tag x [] = ground arith
contains-delete_if tag x (p ∷ ps) = ground (arith, contains-delete_if tag x ps)

module _ {ℓ} {F : Type ℓ} where
  abbrev pub seqs : List (Timer F) → List ℕ
  seqs [] = []
  seqs (t ∷ ts) = t.seq ∷ seqs ts

  pub All-heap_push {κ} :
      (P : Timer F → Type κ) (t : Timer F) (ts : List (Timer F))
      → P t
      → All P ts
      → All P (heap_push t ts)
  unfolding heap_push
  All-heap_push P t [] h a = (h, tt)
  All-heap_push P t (u ∷ us) h a = elim (Bool-cases (less t u)) [
    | inl e ↦ rw e (h, a)
    | inr e ↦ rw e (a.0, All-heap_push P t us h a.1)
  ]

  contains-heap_push :
      (x : ℕ) (t : Timer F) (ts : List (Timer F))
      → contains x (seqs (heap_push t ts)) ≡ (t.seq == x || contains x (seqs ts))
  unfolding heap_push contains
  contains-heap_push x t [] = refl
  contains-heap_push x t (u ∷ us) = elim (Bool-cases (less t u)) [
    | inl e ↦ rw e refl
    | inr e ↦ rw e (ground (arith, contains-heap_push x t us))
  ]

  pub distinct-heap_push :
      (t : Timer F) (ts : List (Timer F))
      → contains t.seq (seqs ts) ≡ false
      → distinct (seqs ts) ≡ true
      → distinct (seqs (heap_push t ts)) ≡ true
  unfolding heap_push distinct contains
  distinct-heap_push t [] n d = refl
  distinct-heap_push t (u ∷ us) n d = elim (Bool-cases (less t u)) [
    | inl e ↦ rw e (ground arith)
    | inr e ↦ rw e (ground (arith, contains-heap_push u.seq t us, distinct-heap_push t us))
  ]

  pub fresh_tag :
      (n : ℕ) (ts : List (Timer F)) → All (λ t. t.seq ≤ n) ts → contains (suc n) (seqs ts) ≡ false
  unfolding contains
  fresh_tag n [] a = refl
  fresh_tag n (t ∷ ts) a = ground (arith, fresh_tag n ts a.1, a.0)

  pub seqs-cancel_in : (tag : ℕ) (ts : List (Timer F)) → seqs (cancel_in tag ts) ≡ seqs ts
  seqs-cancel_in tag [] = refl
  seqs-cancel_in tag (t ∷ ts) = elim (Bool-cases (t.seq == tag)) [
    | inl e ↦ rw e (ap (λ l. t.seq ∷ l) (seqs-cancel_in tag ts))
    | inr e ↦ rw e (ap (λ l. t.seq ∷ l) (seqs-cancel_in tag ts))
  ]

  pub collect-All {κ} :
      (P : Timer F → Type κ) (now : ℕ) (ts : List (Timer F)) (pending : List ℕ)
      → All P ts
      → All P (collect now ts pending).0 × All P (collect now ts pending).1
  unfolding collect
  collect-All P now [] pending a = (tt, tt)
  collect-All P now (t ∷ ts) pending a = elim (Bool-cases (leb t.due now)) [
    | inl due ↦ elim (Option-cases t.fn) [
      | inl e ↦ rw due (rw (e, collect) (collect-All P now ts pending a.1))
      | inr (f, e) ↦
          let rest = collect-All P now ts (delete_if (λ p. p == t.seq) pending) a.1 in
          rw due (rw (e, collect) ((a.0, rest.0), rest.1))
    ]
    | inr late ↦ rw late (tt, a)
  ]

  -- What is collected and what stays keep their tags, in the order they had.
  collect-contains :
      (x now : ℕ) (ts : List (Timer F)) (pending : List ℕ)
      → contains x (seqs ts) ≡ false
      → (contains x (seqs (collect now ts pending).0) ≡ false)
        × (contains x (seqs (collect now ts pending).1) ≡ false)
  unfolding collect contains
  collect-contains x now [] pending n = (refl, refl)
  collect-contains x now (t ∷ ts) pending n = elim (Bool-cases (leb t.due now)) [
    | inl due ↦ elim (Option-cases t.fn) [
      | inl e ↦ rw due (rw (e, collect) (collect-contains x now ts pending (ground arith)))
      | inr (f, e) ↦
          let rest =
            collect-contains x now ts (delete_if (λ p. p == t.seq) pending) (ground arith) in
          rw due (rw (e, collect) (ground (arith, rest.0), rest.1))
    ]
    | inr late ↦ rw late (refl, n)
  ]

  pub collect-distinct :
      (now : ℕ) (ts : List (Timer F)) (pending : List ℕ)
      → distinct (seqs ts) ≡ true
      → (distinct (seqs (collect now ts pending).0) ≡ true)
        × (distinct (seqs (collect now ts pending).1) ≡ true)
  unfolding collect distinct
  collect-distinct now [] pending d = (refl, refl)
  collect-distinct now (t ∷ ts) pending d =
      let split = distinct-cons t.seq (seqs ts) d in
      elim (Bool-cases (leb t.due now)) [
        | inl due ↦ elim (Option-cases t.fn) [
          | inl e ↦ rw due (rw (e, collect) (collect-distinct now ts pending split.1))
          | inr (f, e) ↦
              let left = delete_if (λ p. p == t.seq) pending in
              let rest = collect-distinct now ts left split.1 in
              let away = collect-contains t.seq now ts left split.0 in
              rw due (rw (e, collect) (ground (arith, rest.0, away.0), rest.1))
        ]
        | inr late ↦ rw late (refl, d)
      ]

  other_tags :
      (x : ℕ) (ts : List (Timer F))
      → contains x (seqs ts) ≡ false
      → All (λ u. (x == u.seq) ≡ false) ts
  unfolding contains
  other_tags x [] n = tt
  other_tags x (t ∷ ts) n =
      (ground (arith, nat_beq_iff x t.seq, nat_beq_iff t.seq x), other_tags x ts (ground arith))

  All-both :
      (x : ℕ) (tags : List ℕ) (us : List (Timer F))
      → All (λ u. (x == u.seq) ≡ false) us
      → All (λ u. contains u.seq tags ≡ false) us
      → All (λ u. contains u.seq (x ∷ tags) ≡ false) us
  All-both x tags [] a b = tt
  All-both x tags (u ∷ us) a b =
      (ground (arith, a.0, b.0, contains-cons u.seq x tags), All-both x tags us a.1 b.1)

  none_tags : (us : List (Timer F)) → All (λ u. contains u.seq [] ≡ false) us
  none_tags [] = tt
  none_tags (u ∷ us) = (contains-nil u.seq, none_tags us)

  -- No tag is among those that fire and those that stay.
  pub collect-apart :
      (now : ℕ) (ts : List (Timer F)) (pending : List ℕ)
      → distinct (seqs ts) ≡ true
      → All
          (λ u. contains u.seq (seqs (collect now ts pending).0) ≡ false)
          (collect now ts pending).1
  unfolding collect
  collect-apart now [] pending d = tt
  collect-apart now (t ∷ ts) pending d =
      let split = distinct-cons t.seq (seqs ts) d in
      elim (Bool-cases (leb t.due now)) [
        | inl due ↦ elim (Option-cases t.fn) [
          | inl e ↦ rw due (rw (e, collect) (collect-apart now ts pending split.1))
          | inr (f, e) ↦
              let left = delete_if (λ p. p == t.seq) pending in
              rw due (
                rw (e, collect)
                  (All-both t.seq (seqs (collect now ts left).0) (collect now ts left).1
                    (collect-All (λ u. (t.seq == u.seq) ≡ false) now ts left
                      (other_tags t.seq ts split.0)).1
                    (collect-apart now ts left split.1)))
        ]
        | inr late ↦ rw late (contains-nil t.seq, none_tags ts)
      ]

  -- What is pending stays so, except for what fires.
  pub collect-pending :
      (x now : ℕ) (ts : List (Timer F)) (pending : List ℕ)
      → contains x pending ≡ true
      → contains x (seqs (collect now ts pending).0) ≡ false
      → contains x (collect now ts pending).2 ≡ true
  unfolding collect contains
  collect-pending x now [] pending p n = p
  collect-pending x now (t ∷ ts) pending p n = elim (Bool-cases (leb t.due now)) [
    | inl due ↦ elim (Option-cases t.fn) [
      | inl e ↦ rw due (rw (e, collect) (collect-pending x now ts pending p (ground arith)))
      | inr (f, e) ↦ rw due (
          rw (e, collect)
            (collect-pending x now ts (delete_if (λ p. p == t.seq) pending)
              (ground (arith, contains-delete_if t.seq x pending)) (ground arith)))
    ]
    | inr late ↦ rw late p
  ]
