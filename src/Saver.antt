-- ===== src/Saver.antt =====
-- internal/storage/saver.go: batched writes of what modules mark as dirty. `W` is the data of the
-- modules. A value is what `json.Marshal` makes of it at the time of the flush, none where that
-- fails; raw JSON marshals to itself. Whether the store accepts a namespace is an argument.
pub mod Batches
pub mod Kept
pub mod Runs
pub mod Sync
mod Tests
use botje.Prelude.{
  ℕ, zero, suc, Text, Map, Eq, Bool, true, false, not, ◌&&◌, ◌||◌, List, [], ◌∷◌, ◌++◌, Option,
  none, some, lookup, insert, is_some, or_else, contains, length, ◌==◌, nat_eq, text_eq,
  text_beq_iff, arith, ◌≡◌, ◌↔◌, if◌then◌else◌,
}

pub record SavedKey : Type 0 where
  pub ns : Text
  pub name : Text

abbrev pub saved_beq : SavedKey → SavedKey → Bool
saved_beq a b = a.ns == b.ns && a.name == b.name

pub saved_beq_iff : (a b : SavedKey) → (saved_beq a b ≡ true) ↔ (a ≡ b)
saved_beq_iff a b = ground (arith, text_beq_iff a.ns b.ns, text_beq_iff a.name b.name)

instance abbrev pub saved_eq : Eq SavedKey
saved_eq = record { beq = saved_beq; beq_iff = saved_beq_iff }

abbrev pub Raws : Type 0
Raws = Map SavedKey Text

-- The values of a namespace, under each name: a batch, and what the store holds.
abbrev pub Batches : Type 0
Batches = Map Text (Map Text Text)

-- The goroutine of a flush: none, before its write, or with its completion on the way.
pub data Flight : Type 0 where
  idle : Flight
  flying : Batches → Raws → Flight
  landed : Raws → List Text → Flight

pub put : SavedKey → Text → Batches → Batches
put k raw b = insert k.ns (insert k.name raw (or_else (lookup k.ns b) [])) b

-- `PutMany`
pub merge : Map Text Text → Map Text Text → Map Text Text
merge [] old = old
merge ((name, raw) ∷ values) old = insert name raw (merge values old)

pub put_many : Text → Map Text Text → Batches → Batches
unfolding merge
put_many ns values store = insert ns (merge values (or_else (lookup ns store) [])) store

-- `write`: what the store holds afterwards, and the namespaces that failed.
pub write : (Text → Bool) → Batches → Batches → Batches × List Text
unfolding put_many
write ok [] store = (store, [])
write ok ((ns, values) ∷ batches) store =
    let (store', failed) = write ok batches store in
    if ok ns then (put_many ns values store', failed) else (store', ns ∷ failed)

pub none_failed : List Text → Bool
none_failed [] = true
none_failed (ns ∷ failed) = false

module _ (W : Type 0) where
  abbrev pub Value : Type 0
  Value = W → Option Text

  abbrev pub Dirty : Type 0
  Dirty = Map SavedKey Value

  pub record Saver : Type 0 where
    pub dirty : Dirty
    pub flight : Flight
    pub store : Batches

module _ {W : Type 0} where
  -- `Mark`
  pub mark : SavedKey → Value W → Saver W → Saver W
  mark k value s = record s { dirty = insert k value s.dirty }

  -- `serialize`: the batches and the raw values.
  pub serialize : W → Dirty W → Batches × Raws
  unfolding put
  serialize w [] = ([], [])
  serialize w ((k, value) ∷ dirty) =
      let (batches, raws) = serialize w dirty in
      elim (value w) [ none ↦ (batches, raws) | some raw ↦ (put k raw batches, insert k raw raws) ]

  -- `Flush`, up to the start of its goroutine.
  pub flush_on : W → Dirty W → Saver W → Saver W
  unfolding serialize
  flush_on w [] s = s
  flush_on w (d ∷ dirty) s =
      let (batches, raws) = serialize w (d ∷ dirty) in
      record s { dirty = []; flight = flying batches raws }

  pub flush : W → Saver W → Saver W
  unfolding flush_on
  flush w s = elim s.flight [ idle ↦ flush_on w s.dirty s | flying b r ↦ s | landed r f ↦ s ]

  -- The goroutine's write.
  pub land : (Text → Bool) → Saver W → Saver W
  unfolding write
  land ok s = elim s.flight [
    | idle ↦ s
    | flying batches raws ↦
        let (store, failed) = write ok batches s.store in
        record s { store = store; flight = landed raws failed }
    | landed r f ↦ s
  ]

  pub again : Text → Value W
  again raw w = some raw

  -- What did not land is dirty again, unless it was marked since.
  pub requeue : Raws → List Text → Dirty W → Dirty W
  unfolding again
  requeue [] failed dirty = dirty
  requeue ((k, raw) ∷ raws) failed dirty =
      let rest = requeue raws failed dirty in
      if contains k.ns failed && not (is_some (lookup k dirty))
      then insert k (again raw) rest
      else rest

  -- The completion, on the dispatcher.
  pub complete : Saver W → Saver W
  unfolding requeue
  complete s = elim s.flight [
    | idle ↦ s
    | flying b r ↦ s
    | landed raws failed ↦ record s { dirty = requeue raws failed s.dirty; flight = idle }
  ]

  pub sync_on : W → (Text → Bool) → Dirty W → Saver W → Saver W × Bool
  unfolding serialize write none_failed
  sync_on w ok [] s = (s, true)
  sync_on w ok (d ∷ dirty) s =
      let (batches, raws) = serialize w (d ∷ dirty) in
      let (store, failed) = write ok batches s.store in
      (record s { dirty = []; store = store }, none_failed failed)

  -- `FlushSync`, which waits for the write of a flight first, with whether it returns no error. It is
  -- the last operation: a completion that is still on the way is not run any more.
  pub flush_sync : W → (Text → Bool) → (Text → Bool) → Saver W → Saver W × Bool
  unfolding sync_on land
  flush_sync w flight_ok ok s = sync_on w ok s.dirty (land flight_ok s)
