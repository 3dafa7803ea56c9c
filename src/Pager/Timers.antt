-- ===== src/Pager/Timers.antt =====
-- internal/irc/pager/pager.go: every timer that can still fire belongs to the stash that it deletes.
use botje.Prelude.{
  ℕ, suc, ◌+◌, ◌≤◌, Map, Text, contains, distinct, contains-cons, delete_if, true, false, List, [],
  ◌∷◌, Option, none, some, lookup, insert, remove, lookup-insert, lookup-remove, All, ◌==◌, ==_refl,
  nat_eq, nat_beq_iff, arith, ◌≡◌, refl, ◌∙◌, sym, ap, Bool-cases, Option-cases, inl, inr,
}
use botje.Sched.{Timer, schedule, after, unschedule, cancel_in}
use botje.Sched.Tags.{
  seqs, contains-delete_if, All-heap_push, distinct-heap_push, fresh_tag, seqs-cancel_in,
}
use botje.Pager.{Key, key_eq, key_beq_iff, Stash, Pager, expiry, drop_stash, stash_lines}
use botje.Pager.Owned.{Owned, remove-Owned, cancel-Owned}

abbrev pub Waits : List ℕ → Timer Key → Type 0
Waits pending t = (key : Key) → t.fn ≡ some key → contains t.seq pending ≡ true

pub record IsTimed (p : Pager) : Type 0 where
  pub known : All (λ t. t.seq ≤ p.sched.seq) p.sched.heap
  pub once : distinct (seqs p.sched.heap) ≡ true
  pub waits : All (Waits p.sched.pending) p.sched.heap
  pub owned : All (Owned p.stashes) p.sched.heap

cancel-All :
    (P : Timer Key → Type 0) (tag : ℕ) (ts : List (Timer Key))
    → ((t : Timer Key) → P t → P (record t { fn = none }))
    → All P ts
    → All P (cancel_in tag ts)
cancel-All P tag [] h a = tt
cancel-All P tag (t ∷ ts) h a = elim (Bool-cases (t.seq == tag)) [
  | inl e ↦ rw e (h t a.0, cancel-All P tag ts h a.1)
  | inr e ↦ rw e (a.0, cancel-All P tag ts h a.1)
]

cancel-Waits :
    (tag : ℕ) (pending : List ℕ) (ts : List (Timer Key))
    → All (Waits pending) ts
    → All (Waits (delete_if (λ p. p == tag) pending)) (cancel_in tag ts)
cancel-Waits tag pending [] a = tt
cancel-Waits tag pending (t ∷ ts) a = elim (Bool-cases (t.seq == tag)) [
  | inl e ↦ rw e ((λ k z. absurd (cc)), cancel-Waits tag pending ts a.1)
  | inr e ↦ rw e (
    (λ k z. ground (
      arith,
      contains-delete_if tag t.seq pending,
      a.0 k z,
      nat_beq_iff tag t.seq,
      nat_beq_iff t.seq tag,
    )),
    cancel-Waits tag pending ts a.1,
  )
]

-- A stash whose timer is no longer pending owns none that can fire.
idle-Owned :
    (m : Map Key Stash) (key : Key) (st : Stash) (pending : List ℕ) (ts : List (Timer Key))
    → lookup key m ≡ some st
    → contains st.timer pending ≡ false
    → All (Waits pending) ts
    → All (Owned m) ts
    → All (Owned (remove key m)) ts
idle-Owned m key st pending [] there gone w a = tt
idle-Owned m key st pending (t ∷ ts) there gone w a = (
  (λ k e.
      remove-Owned m key st t there (λ same. both (ap (λ x. contains x pending) same) (w.0 k e)) a.0
        k e),
  idle-Owned m key st pending ts there gone w.1 a.1,
)
  where
    both : contains st.timer pending ≡ contains t.seq pending → contains t.seq pending ≡ true → ⊥
    both h on = ground arith

pub drop_stash-IsTimed : (key : Key) (p : Pager) → IsTimed p → IsTimed (drop_stash key p)
unfolding drop_stash unschedule
drop_stash-IsTimed key p i = elim (Option-cases (lookup key p.stashes)) [
  | inl e ↦ rw (e, drop_stash) i
  | inr (st, e) ↦ elim (Bool-cases (contains st.timer p.sched.pending)) [
    | inl on ↦
        rw (e, drop_stash)
          (rw (on, drop_stash)
            (record {
              known = cancel-All _ st.timer p.sched.heap (λ t h. h) i.known;
              once = rw (seqs-cancel_in st.timer p.sched.heap) i.once;
              waits = cancel-Waits st.timer p.sched.pending p.sched.heap i.waits;
              owned = cancel-Owned p.stashes key st p.sched.heap e i.owned;
            }))
    | inr off ↦
        rw (e, drop_stash)
          (rw (off, drop_stash)
            (record {
              known = i.known;
              once = i.once;
              waits = i.waits;
              owned =
                  idle-Owned p.stashes key st p.sched.pending p.sched.heap e off i.waits i.owned;
            }))
  ]
]

pub lookup-drop_stash : (key : Key) (p : Pager) → lookup key (drop_stash key p).stashes ≡ none
unfolding drop_stash
lookup-drop_stash key p = elim (Option-cases (lookup key p.stashes)) [
  | inl e ↦ rw (e, drop_stash) e
  | inr (st, e) ↦ rw (e, drop_stash) (lookup-remove key key p.stashes ∙ rw (==_refl key) refl)
]

raise : (n : ℕ) (ts : List (Timer Key)) → All (λ t. t.seq ≤ n) ts → All (λ t. t.seq ≤ suc n) ts
raise n [] a = tt
raise n (t ∷ ts) a = (omega (arith, a.0), raise n ts a.1)

still_Waits :
    (tag : ℕ) (pending : List ℕ) (ts : List (Timer Key))
    → All (Waits pending) ts
    → All (Waits (tag ∷ pending)) ts
still_Waits tag pending [] a = tt
still_Waits tag pending (t ∷ ts) a = (
  (λ k e. ground (arith, contains-cons t.seq tag pending, a.0 k e)),
  still_Waits tag pending ts a.1,
)

-- Another stash is set, and takes no timer.
insert-Owned :
    (m : Map Key Stash) (key : Key) (st : Stash) (ts : List (Timer Key))
    → lookup key m ≡ none
    → All (Owned m) ts
    → All (Owned (insert key st m)) ts
insert-Owned m key st [] free a = tt
insert-Owned m key st (t ∷ ts) free a = (
  (λ k e.
      let (found, at, same) = a.0 k e in
      elim (Bool-cases (key == k)) [
        | inl itself ↦
            absurd (nothing (sym free ∙ ap (λ i. lookup i m) ((key_beq_iff key k).0 itself) ∙ at))
        | inr away ↦ (found, lookup-insert key k st m ∙ rw away at, same)
      ]),
  insert-Owned m key st ts free a.1,
)
  where
    nothing : {x : Stash} → ◌≡◌ {A = Option Stash} none (some x) → ⊥
    nothing h = cc

pub stash_lines-IsTimed :
    (now max : ℕ) (key : Key) (lines : List Text) (p : Pager)
    → lookup key p.stashes ≡ none
    → IsTimed p
    → IsTimed (stash_lines now max key lines p)
unfolding stash_lines after schedule
stash_lines-IsTimed now max key lines p free i = record {
  known = All-heap_push _ timer p.sched.heap (omega arith) (raise p.sched.seq p.sched.heap i.known);
  once = distinct-heap_push timer p.sched.heap (fresh_tag p.sched.seq p.sched.heap i.known) i.once;
  waits =
      All-heap_push _ timer p.sched.heap
        (λ k e. ground (arith, contains-cons tag tag p.sched.pending, ==_refl tag))
        (still_Waits tag p.sched.pending p.sched.heap i.waits);
  owned =
      All-heap_push _ timer p.sched.heap new_one
        (insert-Owned p.stashes key st p.sched.heap free i.owned);
}
  where
    tag : ℕ
    tag = suc p.sched.seq

    timer : Timer Key
    timer = record { due = now + expiry; seq = tag; fn = some key }

    st : Stash
    st = record { msgs = lines; displayed = max; timer = tag }

    new_one : Owned (insert key st p.stashes) timer
    new_one k e =
        (st, lookup-insert key k st p.stashes ∙ rw (same_key e) (rw (==_refl k) refl), refl)
      where
        same_key : ◌≡◌ {A = Option Key} (some key) (some k) → key ≡ k
        same_key h = cc
