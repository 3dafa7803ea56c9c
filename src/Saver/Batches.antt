-- ===== src/Saver/Batches.antt =====
-- internal/storage/saver.go: what a batch holds, and what the store holds after a write.
use botje.Prelude.{
  Text, Map, Bool, true, false, [], ◌∷◌, Option, none, some, lookup, insert, lookup-insert, keys,
  or_else, contains, distinct, Unique, contains-keys, insert-Unique, ◌==◌, nat_eq, text_eq,
  text_beq_iff, arith, ◌≡◌, refl, ◌∙◌, sym, ap, Option-cases, inl, inr, if◌then◌else◌,
}
use botje.Saver.{
  SavedKey, saved_eq, saved_beq_iff, Batches, Dirty, Value, put, merge, put_many, write, serialize,
}

-- What a batch, or the store, has under a key.
unfoldable pub at : SavedKey → Batches → Option Text
at k b = lookup k.name (or_else (lookup k.ns b) [])

abbrev pub over {ℓ} : {A : Type ℓ} → Option A → Option A → Option A
over none old = old
over (some a) old = some a

pub at-put :
    (j k : SavedKey) (raw : Text) (b : Batches)
    → at k (put j raw b) ≡ (if j == k then some raw else at k b)
unfolding at put
at-put j k raw b = ground (
  arith,
  lookup-insert j.ns k.ns (insert j.name raw (or_else (lookup j.ns b) [])) b,
  lookup-insert j.name k.name raw (or_else (lookup j.ns b) []),
  text_beq_iff j.ns k.ns,
  text_beq_iff j.name k.name,
)

lookup-merge :
    (n : Text) (values old : Map Text Text)
    → lookup n (merge values old) ≡ over (lookup n values) (lookup n old)
unfolding lookup merge
lookup-merge n [] old = refl
lookup-merge n ((m, raw) ∷ values) old =
    lookup-insert m n raw (merge values old) ∙ ground (arith, lookup-merge n values old)

at-put_many :
    (k : SavedKey) (ns : Text) (values : Map Text Text) (store : Batches)
    → at k (put_many ns values store)
      ≡ (if ns == k.ns then over (lookup k.name values) (at k store) else at k store)
unfolding at put_many
at-put_many k ns values store = ground (
  arith,
  lookup-insert ns k.ns (merge values (or_else (lookup ns store) [])) store,
  lookup-merge k.name values (or_else (lookup ns store) []),
  text_beq_iff ns k.ns,
)

-- What the store has after a write.
abbrev pub written : (Text → Bool) → SavedKey → Batches → Batches → Option Text
written ok k batches store = if ok k.ns then over (at k batches) (at k store) else at k store

pub at-write :
    (ok : Text → Bool) (k : SavedKey) (batches store : Batches)
    → Unique batches
    → at k (write ok batches store).0 ≡ written ok k batches store
unfolding write at lookup distinct keys
at-write ok k [] store u = ground arith
at-write ok k ((ns, values) ∷ batches) store u =
    let rest = (write ok batches store).0 in
    ground (
      arith,
      at-write ok k batches store (ground arith),
      at-put_many k ns values rest,
      text_beq_iff ns k.ns,
      contains-keys ns batches,
    )

-- A namespace that the store refuses has failed.
pub failed-write :
    (ok : Text → Bool) (k : SavedKey) (batches store : Batches) (raw : Text)
    → at k batches ≡ some raw
    → ok k.ns ≡ false
    → contains k.ns (write ok batches store).1 ≡ true
unfolding at write lookup contains
failed-write ok k [] store raw there refused = absurd (cc)
failed-write ok k ((ns, values) ∷ batches) store raw there refused =
    ground (arith, failed-write ok k batches store raw, text_beq_iff ns k.ns)

pub accepted-write :
    (ok : Text → Bool) (k : SavedKey) (batches store : Batches)
    → ok k.ns ≡ true
    → contains k.ns (write ok batches store).1 ≡ false
unfolding write contains
accepted-write ok k [] store fine = refl
accepted-write ok k ((ns, values) ∷ batches) store fine =
    ground (arith, accepted-write ok k batches store, text_beq_iff ns k.ns)

module _ {W : Type 0} (w : W) where
  pub at-serialize :
      (k : SavedKey) (d : Dirty W) → at k (serialize w d).0 ≡ lookup k (serialize w d).1
  unfolding serialize at lookup
  at-serialize k [] = refl
  at-serialize k ((j, value) ∷ d) = elim (Option-cases (value w)) [
    | inl e ↦ rw (e, serialize) (at-serialize k d)
    | inr (raw, e) ↦
        rw (e, serialize)
          (at-put j k raw (serialize w d).0
            ∙ ap (λ o. if j == k then some raw else o) (at-serialize k d)
            ∙ sym (lookup-insert j k raw (serialize w d).1))
  ]

  pub serialize-Unique : (d : Dirty W) → Unique (serialize w d).0
  unfolding serialize put distinct keys
  serialize-Unique [] = refl
  serialize-Unique ((j, value) ∷ d) = elim (Option-cases (value w)) [
    | inl e ↦ rw (e, serialize) (serialize-Unique d)
    | inr (raw, e) ↦ rw (e, serialize) (insert-Unique j.ns _ (serialize w d).0 (serialize-Unique d))
  ]

  pub serialize_found :
      (k : SavedKey) (d : Dirty W) (value : Value W) (raw : Text)
      → lookup k d ≡ some value
      → value w ≡ some raw
      → lookup k (serialize w d).1 ≡ some raw
  unfolding serialize lookup
  serialize_found k [] value raw e v = absurd (cc)
  serialize_found k ((j, value') ∷ d) value raw e v = elim (Option-cases (value' w)) [
    | inl z ↦ rw (z, serialize) (ground (arith, serialize_found k d value raw, saved_beq_iff j k))
    | inr (r, z) ↦
        rw (z, serialize)
          (lookup-insert j k r (serialize w d).1 ∙ ground (arith, serialize_found k d value raw))
  ]

  pub serialize_absent :
      (k : SavedKey) (d : Dirty W) → lookup k d ≡ none → lookup k (serialize w d).1 ≡ none
  unfolding serialize lookup
  serialize_absent k [] e = refl
  serialize_absent k ((j, value) ∷ d) e = elim (Option-cases (value w)) [
    | inl z ↦ rw (z, serialize) (serialize_absent k d (ground arith))
    | inr (r, z) ↦
        rw (z, serialize)
          (lookup-insert j k r (serialize w d).1 ∙ ground (arith, serialize_absent k d))
  ]
