-- ===== src/Sched/Due.antt =====
-- internal/sched/sched.go: the order of the heap, and what `RunDue` fires.
use botje.Prelude.{
  ℕ, contains, delete_if, true, false, not, ◌&&◌, List, [], ◌∷◌, All, leb, is_some, ◌==◌, nat_eq,
  arith, ◌≡◌, refl, Bool-cases, inl, inr,
}
use botje.Sched.{Timer, Sched, less, heap_push, schedule, cancel_in, unschedule, collect, run_due}

module _ {F : Type 0} where
  -- No later timer comes before an earlier one.
  abbrev pub InOrder : List (Timer F) → Type 0
  InOrder [] = Unit
  InOrder (t ∷ ts) = All (λ u. less u t ≡ false) ts × InOrder ts

  less_trans : (a b c : Timer F) → less b a ≡ false → less c b ≡ false → less c a ≡ false
  less_trans a b c p q = ground arith

  less_flip : (a b : Timer F) → less a b ≡ true → less b a ≡ false
  less_flip a b p = ground arith

  All-later :
      (a b : Timer F) (ts : List (Timer F))
      → less b a ≡ false
      → All (λ u. less u b ≡ false) ts
      → All (λ u. less u a ≡ false) ts
  All-later a b [] p q = tt
  All-later a b (t ∷ ts) p q = (less_trans a b t p q.0, All-later a b ts p q.1)

  push-All :
      (a t : Timer F) (ts : List (Timer F))
      → less t a ≡ false
      → All (λ u. less u a ≡ false) ts
      → All (λ u. less u a ≡ false) (heap_push t ts)
  unfolding heap_push
  push-All a t [] p q = (p, tt)
  push-All a t (u ∷ us) p q = elim (Bool-cases (less t u)) [
    | inl e ↦ rw e (p, q)
    | inr e ↦ rw e (q.0, push-All a t us p q.1)
  ]

  heap_push-InOrder : (t : Timer F) (ts : List (Timer F)) → InOrder ts → InOrder (heap_push t ts)
  unfolding heap_push
  heap_push-InOrder t [] o = (tt, tt)
  heap_push-InOrder t (u ∷ us) o = elim (Bool-cases (less t u)) [
    | inl e ↦ rw e ((less_flip t u e, All-later t u us (less_flip t u e) o.0), o)
    | inr e ↦ rw e (push-All u t us e o.0, heap_push-InOrder t us o.1)
  ]

  -- `Schedule` keeps the heap in order.
  pub schedule-InOrder :
      (at : ℕ) (f : F) (s : Sched F) → InOrder s.heap → InOrder (schedule at f s).1.heap
  unfolding schedule
  schedule-InOrder at f s o = heap_push-InOrder _ s.heap o

  -- The timers that are not cancelled and due at `now`.
  abbrev pub live_due : ℕ → List (Timer F) → List (Timer F)
  live_due now ts = delete_if (λ t. not (is_some t.fn && leb t.due now)) ts

  abbrev pub not_due : ℕ → List (Timer F) → List (Timer F)
  not_due now ts = delete_if (λ t. leb t.due now) ts

  later_due :
      (now : ℕ) (t : Timer F) (ts : List (Timer F))
      → leb t.due now ≡ false
      → All (λ u. less u t ≡ false) ts
      → (live_due now ts ≡ []) × (not_due now ts ≡ ts)
  later_due now t [] n a = (refl, refl)
  later_due now t (u ∷ us) n a =
      let rest = later_due now t us n a.1 in ground (arith, rest.0, rest.1)

  collect_fires :
      (now : ℕ) (ts : List (Timer F)) (pending : List ℕ)
      → InOrder ts
      → ((collect now ts pending).0 ≡ live_due now ts)
        × ((collect now ts pending).1 ≡ not_due now ts)
  unfolding collect
  collect_fires now [] pending o = (refl, refl)
  collect_fires now (t ∷ ts) pending o =
      let skipped = collect_fires now ts pending o.1 in
      let taken = collect_fires now ts (delete_if (λ p. p == t.seq) pending) o.1 in
      elim (Bool-cases (leb t.due now)) [
        | inl due ↦ ground (arith, skipped.0, skipped.1, taken.0, taken.1)
        | inr late ↦
            ground (arith, (later_due now t ts late o.0).0, (later_due now t ts late o.0).1)
      ]

  -- `RunDue` on a heap in order fires exactly the timers that are due and not cancelled, the earliest
  -- first, and keeps exactly those that are not due yet, in order.
  pub run_due_lem :
      (now : ℕ) (s : Sched F)
      → InOrder s.heap
      → ((run_due now s).0 ≡ live_due now s.heap) × ((run_due now s).1.heap ≡ not_due now s.heap)
  unfolding run_due
  run_due_lem now s o = collect_fires now s.heap s.pending o

  -- `Unschedule` of a pending tag cancels the timers with that tag, so that they are never due, and
  -- no other.
  pub live_due-unschedule :
      (now tag : ℕ) (s : Sched F)
      → contains tag s.pending ≡ true
      → live_due now (unschedule tag s).1.heap ≡ delete_if (λ t. t.seq == tag) (live_due now s.heap)
  unfolding unschedule
  live_due-unschedule now tag s p = rw p (cancelled s.heap)
    where
      cancelled :
          (ts : List (Timer F))
          → live_due now (cancel_in tag ts) ≡ delete_if (λ t. t.seq == tag) (live_due now ts)
      cancelled [] = refl
      cancelled (t ∷ ts) = elim (Bool-cases (t.seq == tag)) [
        | inl e ↦ rw e (ground (arith, cancelled ts))
        | inr e ↦ rw e (ground (arith, cancelled ts))
      ]
