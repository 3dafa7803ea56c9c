-- ===== src/Sched/Tests.antt =====
-- internal/sched/sched.go: a scheduler with three timers, and the theorems at it.
use botje.Prelude.{ℕ, ◌==◌, nat_eq, contains, delete_if, [], ◌∷◌, none, some, ◌≡◌, refl}
use botje.Sched.{Timer, Sched, after, unschedule, next_in, run_due, len}
use botje.Sched.Due.{InOrder, live_due, not_due, run_due_lem, live_due-unschedule}

abbrev idle : Sched ℕ
idle = record { heap = []; pending = []; seq = 0 }

abbrev three : Sched ℕ
three = record {
  heap =
      record { due = 4; seq = 2; fn = some 20 }
      ∷ record { due = 4; seq = 3; fn = none }
      ∷ record { due = 9; seq = 1; fn = some 10 }
      ∷ [];
  pending = 2 ∷ 1 ∷ [];
  seq = 3;
}

three-InOrder : InOrder three.heap
three-InOrder = ((refl, (refl, tt)), ((refl, tt), (tt, tt)))

next_in-three : (next_in 1 three).0 ≡ some 3
unfolding next_in
next_in-three = refl

len-three : len three ≡ 2
unfolding len
len-three = refl

after_idle : (after 3 4 50 idle).0 ≡ 1
unfolding after
after_idle = refl

run_due_example :
    ((run_due 6 three).0 ≡ live_due 6 three.heap)
    × ((run_due 6 three).1.heap ≡ not_due 6 three.heap)
run_due_example = run_due_lem 6 three three-InOrder

live_due-unschedule_example :
    live_due 20 (unschedule 1 three).1.heap
    ≡ delete_if (λ (t : Timer ℕ). t.seq == 1) (live_due 20 three.heap)
live_due-unschedule_example = live_due-unschedule 20 1 three (unfold contains in refl)
