-- ===== src/Saver/Kept.antt =====
-- internal/storage/saver.go: where the value of a key is, after each operation.
use botje.Prelude.{
  Text, Bool, true, false, not, ◌&&◌, List, [], ◌∷◌, none, some, lookup, lookup-insert, is_some,
  contains, on_some, Unique, ◌==◌, nat_eq, text_eq, arith, ◌≡◌, ◌⊎◌, refl, ◌∙◌, ap, Bool-cases,
  Option-cases, inl, inr, if◌then◌else◌,
}
use botje.Saver.{
  SavedKey, saved_eq, saved_beq_iff, Raws, Batches, Dirty, Value, Flight, idle, flying, landed,
  Saver, mark, flush_on, flush, write, land, again, requeue, complete,
}
use botje.Saver.Batches.{
  at, written, at-write, failed-write, accepted-write, at-serialize, serialize-Unique,
  serialize_found, serialize_absent,
}

-- The batches and the raw values of a flight agree.
abbrev pub Agrees : Flight → Type 0
Agrees idle = Unit
Agrees (flying b r) = ((k : SavedKey) → at k b ≡ lookup k r) × Unique b
Agrees (landed r failed) = Unit

-- A key that is not dirty: its value is on the way, or the store has it and no flight changes that.
abbrev pub Rests : SavedKey → Text → Flight → Batches → Type 0
Rests k raw idle store = at k store ≡ some raw
Rests k raw (flying b r) store =
    (lookup k r ≡ some raw) ⊎ ((lookup k r ≡ none) × (at k store ≡ some raw))
Rests k raw (landed r failed) store =
    ((lookup k r ≡ some raw) × (contains k.ns failed ≡ true))
    ⊎ ((at k store ≡ some raw) × (contains k.ns failed && is_some (lookup k r) ≡ false))

module _ {W : Type 0} where
  -- The key is dirty, and its value is `raw` at any time.
  abbrev pub Pending : SavedKey → Text → Dirty W → Type 0
  Pending k raw dirty =
      (value : Value W) × (lookup k dirty ≡ some value) × ((w : W) → value w ≡ some raw)

  pub record Kept (k : SavedKey) (raw : Text) (s : Saver W) : Type 0 where
    pub agrees : Agrees s.flight
    pub somewhere :
        Pending k raw s.dirty ⊎ ((lookup k s.dirty ≡ none) × Rests k raw s.flight s.store)

  pub mark-Kept :
      (k j : SavedKey) (raw : Text) (value : Value W) (s : Saver W)
      → (j == k) ≡ false
      → Kept k raw s
      → Kept k raw (mark j value s)
  unfolding mark
  mark-Kept k j raw value s apart kept = record {
    agrees = kept.agrees;
    somewhere = rw (lookup-insert j k value s.dirty) (rw apart kept.somewhere);
  }

  flush-Kept_at :
      (k : SavedKey) (raw : Text) (w : W) (dirty : Dirty W) (flight : Flight) (store : Batches)
      → let s : Saver W = record { dirty = dirty; flight = flight; store = store } in
        Kept k raw s → Kept k raw (flush w s)
  unfolding flush flush_on lookup
  flush-Kept_at k raw w [] idle store kept = kept
  flush-Kept_at k raw w (d ∷ dirty) idle store kept = record {
    agrees = ((λ j. at-serialize w j (d ∷ dirty)), serialize-Unique w (d ∷ dirty));
    somewhere = inr (
      refl,
      elim kept.somewhere [
        | inl (value, e, constant) ↦ inl (serialize_found w k (d ∷ dirty) value raw e (constant w))
        | inr (e, r) ↦ inr (serialize_absent w k (d ∷ dirty) e, r)
      ],
    );
  }
  flush-Kept_at k raw w dirty (flying b r) store kept = kept
  flush-Kept_at k raw w dirty (landed r failed) store kept = kept

  pub flush-Kept :
      (k : SavedKey) (raw : Text) (w : W) (s : Saver W) → Kept k raw s → Kept k raw (flush w s)
  flush-Kept k raw w s kept = flush-Kept_at k raw w s.dirty s.flight s.store kept

  land-Kept_at :
      (k : SavedKey) (raw : Text) (ok : Text → Bool) (dirty : Dirty W) (flight : Flight)
      (store : Batches)
      → let s : Saver W = record { dirty = dirty; flight = flight; store = store } in
        Kept k raw s → Kept k raw (land ok s)
  unfolding land
  land-Kept_at k raw ok dirty idle store kept = kept
  land-Kept_at k raw ok dirty (flying b r) store kept = record {
    agrees = tt;
    somewhere = elim kept.somewhere [
      | inl pending ↦ inl pending
      | inr (e, rests) ↦ inr (e, landed_rests rests)
    ];
  }
    where
      stored : at k (write ok b store).0 ≡ written ok k b store
      stored = at-write ok k b store kept.agrees.1

      landed_rests :
          Rests k raw (flying b r) store
          → Rests k raw (landed r (write ok b store).1) (write ok b store).0
      landed_rests (inl found) = elim (Bool-cases (ok k.ns)) [
        | inl fine ↦
            inr (grind (arith, stored, kept.agrees.0 k), grind (arith, accepted-write ok k b store))
        | inr refused ↦ inl (found, failed-write ok k b store raw (kept.agrees.0 k ∙ found) refused)
      ]
      landed_rests (inr (absent, had)) = inr (grind (arith, stored, kept.agrees.0 k), grind arith)
  land-Kept_at k raw ok dirty (landed r failed) store kept = kept

  pub land-Kept :
      (k : SavedKey) (raw : Text) (ok : Text → Bool) (s : Saver W)
      → Kept k raw s
      → Kept k raw (land ok s)
  land-Kept k raw ok s kept = land-Kept_at k raw ok s.dirty s.flight s.store kept

  lookup-requeue :
      (k : SavedKey) (raws : Raws) (failed : List Text) (dirty : Dirty W)
      → lookup k (requeue raws failed dirty) ≡ (
          if contains k.ns failed && not (is_some (lookup k dirty))
          then on_some again (lookup k raws)
          else lookup k dirty)
  unfolding requeue lookup
  lookup-requeue k [] failed dirty = ground arith
  lookup-requeue k ((j, raw) ∷ raws) failed dirty = elim (Bool-cases (j == k)) [
    | inl e ↦
        let same = (saved_beq_iff j k).0 e in
        ground (
          arith,
          lookup-requeue k raws failed dirty,
          lookup-insert j k (again raw) (requeue raws failed dirty),
          ap (λ i. contains i.ns failed) same,
          ap (λ i. is_some (lookup i dirty)) same,
        )
    | inr e ↦ ground (
      arith,
      lookup-requeue k raws failed dirty,
      lookup-insert j k (again raw) (requeue raws failed dirty),
    )
  ]

  complete-Kept_at :
      (k : SavedKey) (raw : Text) (dirty : Dirty W) (flight : Flight) (store : Batches)
      → let s : Saver W = record { dirty = dirty; flight = flight; store = store } in
        Kept k raw s → Kept k raw (complete s)
  unfolding complete again
  complete-Kept_at k raw dirty idle store kept = kept
  complete-Kept_at k raw dirty (flying b r) store kept = kept
  complete-Kept_at k raw dirty (landed r failed) store kept = record {
    agrees = tt;
    somewhere = elim kept.somewhere [
      | inl (value, e, constant) ↦
          inl (value, lookup-requeue k r failed dirty ∙ grind arith, constant)
      | inr (e, inl (found, bad)) ↦
          inl (again raw, lookup-requeue k r failed dirty ∙ rw (e, bad, found) refl, (λ w. refl))
      | inr (e, inr (had, safe)) ↦ inr (
        lookup-requeue k r failed dirty
            ∙ rw e (elim (Option-cases (lookup k r)) [
              | inl z ↦ ground arith
              | inr (x, z) ↦ ground arith
            ]),
        had,
      )
    ];
  }

  pub complete-Kept :
      (k : SavedKey) (raw : Text) (s : Saver W) → Kept k raw s → Kept k raw (complete s)
  complete-Kept k raw s kept = complete-Kept_at k raw s.dirty s.flight s.store kept
