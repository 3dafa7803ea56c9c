-- ===== src/Prelude/UniqueKeys.antt =====
-- Maps that hold each key once, as a Go map does.
use mathlib.Core.Path.{◌≡◌, refl}
use mathlib.Core.Bool.{true, false, not, ◌&&◌, ◌||◌}
use mathlib.Core.List.{[], ◌∷◌}
use native.Mathlib.Omega.{arith}
use botje.Prelude.Tests.{Eq, ◌==◌}
use botje.Prelude.Lists.{contains, distinct}
use botje.Prelude.Maps.{Map, lookup, insert, remove, keys, is_some}

module _ {ℓ κ} {K : Type ℓ} {V : Type κ} ⦃e : Eq K⦄ where
  abbrev pub Unique : Map K V → Type 0
  Unique m = distinct (keys m) ≡ true

  pub contains-keys : (k : K) (m : Map K V) → contains k (keys m) ≡ is_some (lookup k m)
  unfolding contains keys lookup
  contains-keys k [] = refl
  contains-keys k ((j, v) ∷ m) = ground (arith, contains-keys k m)

  contains-keys-insert :
      (k j : K) (v : V) (m : Map K V)
      → contains j (keys (insert k v m)) ≡ (k == j || contains j (keys m))
  unfolding contains keys insert
  contains-keys-insert k j v [] = refl
  contains-keys-insert k j v ((i, w) ∷ m) =
      ground (arith, contains-keys-insert k j v m, e.beq_iff i k, e.beq_iff k j, e.beq_iff i j)

  pub insert-Unique : (k : K) (v : V) (m : Map K V) → Unique m → Unique (insert k v m)
  unfolding distinct keys insert contains
  insert-Unique k v [] u = refl
  insert-Unique k v ((j, w) ∷ m) u =
      ground
        (arith, insert-Unique k v m, contains-keys-insert k j v m, e.beq_iff j k, e.beq_iff k j)

  contains-keys-remove :
      (k j : K) (m : Map K V)
      → contains j (keys (remove k m)) ≡ (not (k == j) && contains j (keys m))
  unfolding contains keys remove
  contains-keys-remove k j [] = ground arith
  contains-keys-remove k j ((i, w) ∷ m) =
      ground (arith, contains-keys-remove k j m, e.beq_iff i k, e.beq_iff k j, e.beq_iff i j)

  pub remove-Unique : (k : K) (m : Map K V) → Unique m → Unique (remove k m)
  unfolding distinct keys remove
  remove-Unique k [] u = refl
  remove-Unique k ((j, w) ∷ m) u =
      ground (arith, remove-Unique k m, contains-keys-remove k j m, e.beq_iff j k, e.beq_iff k j)

  -- Nothing to remove where the key is not held.
  pub remove_absent : (k : K) (m : Map K V) → contains k (keys m) ≡ false → remove k m ≡ m
  unfolding contains keys remove
  remove_absent k [] h = refl
  remove_absent k ((j, w) ∷ m) h = ground (arith, remove_absent k m)
