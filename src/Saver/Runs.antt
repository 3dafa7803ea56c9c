-- ===== src/Saver/Runs.antt =====
-- internal/storage/saver.go: marks, flushes, writes and completions in any order.
use botje.Prelude.{
  Text, Bool, true, false, List, [], ◌∷◌, some, lookup, lookup-insert, All, ◌==◌, ==_refl, nat_eq,
  text_eq, ◌≡◌, refl, ◌∙◌, inl, inr,
}
use botje.Saver.{
  SavedKey, saved_eq, Batches, Dirty, Value, Flight, idle, flying, landed, Saver, mark, serialize,
  flush_on, flush, land, complete,
}
use botje.Saver.Batches.{at, accepted-write, at-serialize, serialize-Unique}
use botje.Saver.Kept.{Agrees, Kept, mark-Kept, flush-Kept, land-Kept, complete-Kept}

module _ (W : Type 0) where
  -- What the dispatcher and the goroutine of a flush do, one after another.
  pub data Op : Type 0 where
    marks : SavedKey → Value W → Op
    flushes : W → Op
    lands : (Text → Bool) → Op
    completes : Op

module _ {W : Type 0} where
  unfoldable pub apply : Op W → Saver W → Saver W
  unfolding mark flush land complete
  apply (marks j value) s = mark j value s
  apply (flushes w) s = flush w s
  apply (lands ok) s = land ok s
  apply completes s = complete s

  unfoldable pub run : List (Op W) → Saver W → Saver W
  unfolding apply
  run [] s = s
  run (op ∷ ops) s = run ops (apply op s)

  -- The key is not marked again.
  abbrev pub Spares : SavedKey → Op W → Type 0
  Spares k (marks j value) = (j == k) ≡ false
  Spares k _ = Unit

  apply-Agrees_at :
      (op : Op W) (dirty : Dirty W) (flight : Flight) (store : Batches)
      → Agrees flight
      → Agrees (apply op (record { dirty = dirty; flight = flight; store = store })).flight
  unfolding apply mark flush flush_on land complete
  apply-Agrees_at (marks j value) dirty flight store agrees = agrees
  apply-Agrees_at (flushes w) [] idle store agrees = tt
  apply-Agrees_at (flushes w) (d ∷ dirty) idle store agrees =
      ((λ j. at-serialize w j (d ∷ dirty)), serialize-Unique w (d ∷ dirty))
  apply-Agrees_at (flushes w) dirty (flying b r) store agrees = agrees
  apply-Agrees_at (flushes w) dirty (landed r failed) store agrees = tt
  apply-Agrees_at (lands ok) dirty idle store agrees = tt
  apply-Agrees_at (lands ok) dirty (flying b r) store agrees = tt
  apply-Agrees_at (lands ok) dirty (landed r failed) store agrees = tt
  apply-Agrees_at completes dirty idle store agrees = tt
  apply-Agrees_at completes dirty (flying b r) store agrees = agrees
  apply-Agrees_at completes dirty (landed r failed) store agrees = tt

  run-Agrees : (ops : List (Op W)) (s : Saver W) → Agrees s.flight → Agrees (run ops s).flight
  unfolding run
  run-Agrees [] s agrees = agrees
  run-Agrees (op ∷ ops) s agrees =
      run-Agrees ops (apply op s) (apply-Agrees_at op s.dirty s.flight s.store agrees)

  apply-Kept :
      (k : SavedKey) (raw : Text) (op : Op W) (s : Saver W)
      → Spares k op
      → Kept k raw s
      → Kept k raw (apply op s)
  unfolding apply
  apply-Kept k raw (marks j value) s apart kept = mark-Kept k j raw value s apart kept
  apply-Kept k raw (flushes w) s apart kept = flush-Kept k raw w s kept
  apply-Kept k raw (lands ok) s apart kept = land-Kept k raw ok s kept
  apply-Kept k raw completes s apart kept = complete-Kept k raw s kept

  run-Kept :
      (k : SavedKey) (raw : Text) (ops : List (Op W)) (s : Saver W)
      → All (Spares k) ops
      → Kept k raw s
      → Kept k raw (run ops s)
  unfolding run
  run-Kept k raw [] s apart kept = kept
  run-Kept k raw (op ∷ ops) s apart kept =
      run-Kept k raw ops (apply op s) apart.1 (apply-Kept k raw op s apart.0 kept)

  abbrev pub start : Saver W
  start = record { dirty = []; flight = idle; store = [] }

  -- A flight in hand is ended, whatever the store accepts, and then a round that it accepts.
  abbrev pub settled : W → (Text → Bool) → Saver W → Saver W
  settled w ok s = land (λ ns. true) (flush w (complete (land ok s)))

  settled_idle :
      (k : SavedKey) (raw : Text) (w : W) (dirty : Dirty W) (store : Batches)
      → let s : Saver W = record { dirty = dirty; flight = idle; store = store } in
        Kept k raw s → at k (land (λ ns. true) (flush w s)).store ≡ some raw
  unfolding flush flush_on land lookup
  settled_idle k raw w [] store kept = elim kept.somewhere [
    | inl (value, e, constant) ↦ absurd (cc)
    | inr (e, had) ↦ had
  ]
  settled_idle k raw w (d ∷ dirty) store kept =
      let s : Saver W = record { dirty = d ∷ dirty; flight = idle; store = store } in
      let (b, r) = serialize w (d ∷ dirty) in
      let fine = accepted-write (λ ns. true) k b store refl in
      elim (land-Kept k raw (λ ns. true) (flush w s) (flush-Kept k raw w s kept)).somewhere [
        | inl (value, e, constant) ↦ absurd (cc)
        | inr (e, inl (found, bad)) ↦ absurd (cc)
        | inr (e, inr (had, safe)) ↦ had
      ]

  settling :
      (k : SavedKey) (raw : Text) (w : W) (ok : Text → Bool) (dirty : Dirty W) (flight : Flight)
      (store : Batches)
      → let s : Saver W = record { dirty = dirty; flight = flight; store = store } in
        Kept k raw (complete (land ok s)) → at k (settled w ok s).store ≡ some raw
  unfolding complete land
  settling k raw w ok dirty idle store kept = settled_idle k raw w dirty store kept
  settling k raw w ok dirty (flying b r) store kept = settled_idle k raw w _ _ kept
  settling k raw w ok dirty (landed r failed) store kept = settled_idle k raw w _ _ kept

  -- From a new saver on, in any order of marks, flushes, writes and completions, whatever the store
  -- accepts of them: once a key is marked with a value that marshals to `raw` at any time, and
  -- is not marked again, then the end of the flight in hand and one round that the store accepts
  -- leave `raw` in the store.
  pub run-stored :
      (k : SavedKey) (raw : Text) (value : Value W) (before ops : List (Op W)) (w : W)
      (ok : Text → Bool)
      → ((now : W) → value now ≡ some raw)
      → All (Spares k) ops
      → at k (settled w ok (run ops (mark k value (run before start)))).store ≡ some raw
  unfolding mark
  run-stored k raw value before ops w ok constant apart =
      let s = run before start in
      let s' = run ops (mark k value s) in
      settling k raw w ok s'.dirty s'.flight s'.store (
        complete-Kept k raw (land ok s')
          (land-Kept k raw ok s' (run-Kept k raw ops (mark k value s) apart marked)))
    where
      marked : Kept k raw (mark k value (run before start))
      marked = record {
        agrees = run-Agrees before start tt;
        somewhere = inl (
          value,
          lookup-insert k k value (run before start).dirty ∙ rw (==_refl k) refl,
          constant,
        );
      }
