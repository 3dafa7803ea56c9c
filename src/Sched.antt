-- ===== src/Sched.antt =====
-- internal/sched/sched.go: the one-shot timers. `container/heap` of the Go library is modelled by
-- what it promises: the heap is a list in the order of `Less`, `Push` puts a timer at its place and
-- `Pop` takes the first. Times are nanoseconds. A callback is a value
-- of any type `F`; `RunDue` gives the timers to fire, and their calls are the client's.
pub mod Due
pub mod Tags
mod Tests
use botje.Prelude.{
  ℕ, zero, suc, ◌+◌, ◌-◌, ◌≤◌, contains, delete_if, Bool, true, false, ◌&&◌, ◌||◌, List, [], ◌∷◌,
  ◌++◌, Option, none, some, length, leb, ltb, if◌then◌else◌, ◌==◌, nat_eq,
}

-- `fn` is none once the timer is cancelled.
pub record Timer {ℓ} (F : Type ℓ) : Type ℓ where
  pub due : ℕ
  pub seq : ℕ
  pub fn : Option F

-- `heap` holds the cancelled timers too; `pending` has the tags of the others.
pub record Sched {ℓ} (F : Type ℓ) : Type ℓ where
  pub heap : List (Timer F)
  pub pending : List ℕ
  pub seq : ℕ

module _ {ℓ} {F : Type ℓ} where
  -- `Less`
  abbrev pub less : Timer F → Timer F → Bool
  less a b = if a.due == b.due then ltb a.seq b.seq else ltb a.due b.due

  -- `heap.Push`
  unfoldable pub heap_push : Timer F → List (Timer F) → List (Timer F)
  heap_push t [] = t ∷ []
  heap_push t (u ∷ us) = let later = u ∷ heap_push t us in if less t u then t ∷ u ∷ us else later

  -- `Schedule`: the tag, and the scheduler.
  unfoldable pub schedule : ℕ → F → Sched F → ℕ × Sched F
  unfolding heap_push
  schedule at f s =
      let tag = suc s.seq in
      (
        tag,
        record s {
          heap = heap_push (record { due = at; seq = tag; fn = some f }) s.heap;
          pending = tag ∷ s.pending;
          seq = tag;
        },
      )

  -- `After`
  unfoldable pub after : ℕ → ℕ → F → Sched F → ℕ × Sched F
  unfolding schedule
  after now d f s = schedule (now + d) f s

  abbrev pub cancel_in : ℕ → List (Timer F) → List (Timer F)
  cancel_in tag [] = []
  cancel_in tag (t ∷ ts) = (if t.seq == tag then record t { fn = none } else t) ∷ cancel_in tag ts

  -- `Unschedule`
  unfoldable pub unschedule : ℕ → Sched F → Bool × Sched F
  unschedule tag s =
      if contains tag s.pending
      then (
        true,
        record s { heap = cancel_in tag s.heap; pending = delete_if (λ p. p == tag) s.pending },
      )
      else (false, s)

  -- `dropCancelled`
  pub drop_cancelled : List (Timer F) → List (Timer F)
  drop_cancelled [] = []
  drop_cancelled (t ∷ ts) =
      let rest = drop_cancelled ts in elim t.fn [ none ↦ rest | some f ↦ t ∷ ts ]

  first_due : ℕ → List (Timer F) → Option ℕ
  first_due now [] = none
  first_due now (t ∷ ts) = some (t.due - now)

  -- `NextIn`: `-` stops at 0, as `max(…, 0)` does.
  pub next_in : ℕ → Sched F → Option ℕ × Sched F
  unfolding drop_cancelled first_due
  next_in now s = let heap = drop_cancelled s.heap in (first_due now heap, record s { heap = heap })

  -- The loop of `RunDue`: what is due, what stays in the heap, and what stays pending.
  unfoldable pub collect : ℕ → List (Timer F) → List ℕ → List (Timer F) × List (Timer F) × List ℕ
  collect now [] pending = ([], [], pending)
  collect now (t ∷ ts) pending =
      let skipped = collect now ts pending in
      let taken = collect now ts (delete_if (λ p. p == t.seq) pending) in
      if leb t.due now
      then elim t.fn [ none ↦ skipped | some f ↦ (t ∷ taken.0, taken.1, taken.2) ]
      else ([], t ∷ ts, pending)

  -- `RunDue` up to the calls: the timers to fire, in order, and the scheduler that they see.
  unfoldable pub run_due : ℕ → Sched F → List (Timer F) × Sched F
  unfolding collect
  run_due now s =
      let (due, heap, pending) = collect now s.heap s.pending in
      (due, record s { heap = heap; pending = pending })

  -- `Len`
  pub len : Sched F → ℕ
  len s = length s.pending
