-- ===== src/Saver/Tests.antt =====
-- internal/storage/saver.go: two keys of a namespace that the store refuses once, and the theorems.
use botje.Prelude.{
  ℕ, Text, codes, Bool, true, false, List, [], ◌∷◌, none, some, lookup, insert, contains, is_some,
  text_eq, text_beq, nat_eq, ◌≡◌, refl,
}
use botje.Saver.{SavedKey, saved_eq, Value, idle, Saver, mark, flush, flush_sync}
use botje.Saver.Batches.{at}
use botje.Saver.Runs.{Op, marks, flushes, lands, completes, run, start, settled, run-stored}
use botje.Saver.Sync.{flush_sync-stored}

abbrev key : SavedKey
key = record { ns = codes "karma"; name = codes "go" }

abbrev other : SavedKey
other = record { ns = codes "karma"; name = codes "c" }

abbrev constant : Text → Value ℕ
constant raw now = some raw

abbrev yes : Text → Bool
yes ns = true

abbrev refused : Text → Bool
refused ns = false

abbrev round : List (Op ℕ)
round = flushes 0 ∷ marks other (constant (codes "2")) ∷ lands refused ∷ completes ∷ []

requeued :
    is_some (lookup key (run round (mark key (constant (codes "1")) (start {W = ℕ}))).dirty) ≡ true
unfolding run mark lookup text_beq insert contains
requeued = refl

-- A flight fails while FlushSync waits for it: no error, and the value is not stored.
lost_in_flight :
    let (s, fine) =
      flush_sync 0 refused yes (flush 0 (mark key (constant (codes "1")) (start {W = ℕ}))) in
    (fine ≡ true) × (at key s.store ≡ none)
unfolding flush_sync flush mark at lookup insert
lost_in_flight = (refl, refl)

run-stored_example :
    at key
      (settled 0 refused
        (run round (mark key (constant (codes "1")) (run (flushes 0 ∷ []) (start {W = ℕ}))))).store
    ≡ some (codes "1")
unfolding text_beq
run-stored_example =
    run-stored key (codes "1") (constant (codes "1")) (flushes 0 ∷ []) round 0 refused (λ now. refl)
      (tt, (refl, (tt, (tt, tt))))

abbrev marked : Saver ℕ
marked = record { dirty = (key, constant (codes "1")) ∷ []; flight = idle; store = [] }

flush_sync-stored_example : at key (flush_sync 0 yes yes marked).0.store ≡ some (codes "1")
unfolding lookup text_beq flush_sync insert
flush_sync-stored_example =
    flush_sync-stored 0 yes yes key marked (constant (codes "1")) (codes "1") refl refl refl
