-- ===== src/Saver/Sync.antt =====
-- internal/storage/saver.go: the last flush.
use botje.Prelude.{
  Text, Bool, true, false, List, [], ◌∷◌, some, lookup, contains, text_eq, arith, ◌≡◌, refl, ◌∙◌,
  Bool-cases, inl, inr,
}
use botje.Saver.{
  SavedKey, saved_eq, Batches, Dirty, Value, Saver, serialize, write, land, none_failed, sync_on,
  flush_sync,
}
use botje.Saver.Batches.{
  at, at-write, failed-write, at-serialize, serialize-Unique, serialize_found,
}

accepted_all :
    (ok : Text → Bool) (k : SavedKey) (failed : List Text)
    → none_failed failed ≡ true
    → contains k.ns failed ≡ false
unfolding none_failed contains
accepted_all ok k [] h = refl
accepted_all ok k (ns ∷ failed) h = absurd (cc)

module _ {W : Type 0} (w : W) where
  sync_on-stored :
      (ok : Text → Bool) (k : SavedKey) (dirty : Dirty W) (s : Saver W) (value : Value W)
      (raw : Text)
      → lookup k dirty ≡ some value
      → value w ≡ some raw
      → (sync_on w ok dirty s).1 ≡ true
      → at k (sync_on w ok dirty s).0.store ≡ some raw
  unfolding sync_on lookup
  sync_on-stored ok k [] s value raw e v fine = absurd (cc)
  sync_on-stored ok k (d ∷ dirty) s value raw e v fine = elim (Bool-cases (ok k.ns)) [
    | inl accepts ↦
        at-write ok k b s.store (serialize-Unique w (d ∷ dirty)) ∙ rw accepts (rw found refl)
    | inr refuses ↦ absurd (
        grind (
          arith,
          failed-write ok k b s.store raw found refuses,
          accepted_all ok k (write ok b s.store).1 fine,
        ))
  ]
    where
      b : Batches
      b = (serialize w (d ∷ dirty)).0

      found : at k b ≡ some raw
      found = at-serialize w k (d ∷ dirty) ∙ serialize_found w k (d ∷ dirty) value raw e v

  -- Where FlushSync returns no error, the store has the value of every key that was dirty and whose
  -- value marshals, whatever became of a flight that it waited for.
  pub flush_sync-stored :
      (flight_ok ok : Text → Bool) (k : SavedKey) (s : Saver W) (value : Value W) (raw : Text)
      → lookup k s.dirty ≡ some value
      → value w ≡ some raw
      → (flush_sync w flight_ok ok s).1 ≡ true
      → at k (flush_sync w flight_ok ok s).0.store ≡ some raw
  unfolding flush_sync
  flush_sync-stored flight_ok ok k s value raw e v fine =
      sync_on-stored ok k s.dirty (land flight_ok s) value raw e v fine
