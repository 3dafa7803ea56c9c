-- ===== src/Prelude/Maps.antt =====
-- Go maps as association lists. The order of the entries stands for nothing.
use mathlib.Core.Path.{◌≡◌, refl}
use mathlib.Core.Bool.{Bool, true, false}
use mathlib.Core.List.{List, [], ◌∷◌}
use mathlib.Core.Option.{Option, none, some}
use native.Mathlib.Omega.{arith}
use botje.Prelude.Tests.{Eq, ◌==◌, if◌then◌else◌}

abbrev pub Map {ℓ κ} : Type ℓ → Type κ → Type (ℓ ⊔ κ)
Map K V = List (K × V)

abbrev pub is_some {ℓ} : {A : Type ℓ} → Option A → Bool
is_some none = false
is_some (some a) = true

abbrev pub or_else {ℓ} : {A : Type ℓ} → Option A → A → A
or_else none d = d
or_else (some a) d = a

module _ {ℓ κ} {K : Type ℓ} {V : Type κ} ⦃e : Eq K⦄ where
  unfoldable pub lookup : K → Map K V → Option V
  lookup key [] = none
  lookup key ((other, value) ∷ m) = if other == key then some value else lookup key m

  -- `m[k] = v`
  unfoldable pub insert : K → V → Map K V → Map K V
  insert key new [] = (key, new) ∷ []
  insert key new ((other, old) ∷ m) =
      let later = (other, old) ∷ insert key new m in if other == key then (key, new) ∷ m else later

  -- `delete(m, k)`
  unfoldable pub remove : K → Map K V → Map K V
  remove k [] = []
  remove k ((j, v) ∷ m) = let rest = remove k m in if j == k then rest else (j, v) ∷ rest

  unfoldable pub keys : Map K V → List K
  keys [] = []
  keys ((k, v) ∷ m) = k ∷ keys m

  unfoldable pub values : Map K V → List V
  values [] = []
  values ((k, v) ∷ m) = v ∷ values m

  pub lookup-insert :
      (key other : K) (new : V) (rest : Map K V)
      → lookup other (insert key new rest) ≡ (if key == other then some new else lookup other rest)
  unfolding lookup insert
  lookup-insert key other new [] = refl
  lookup-insert key other new ((first, old) ∷ rest) = ground (
    arith,
    e.beq_iff key other,
    e.beq_iff first key,
    e.beq_iff first other,
    lookup-insert key other new rest,
  )

  pub lookup-remove :
      (k j : K) (m : Map K V) → lookup j (remove k m) ≡ (if k == j then none else lookup j m)
  unfolding lookup remove
  lookup-remove k j [] = ground arith
  lookup-remove k j ((i, w) ∷ m) =
      ground (arith, e.beq_iff k j, e.beq_iff i k, e.beq_iff i j, lookup-remove k j m)

  -- A Go loop that rewrites every value of a map.
  unfoldable pub map_values {μ} : {W : Type μ} → (V → W) → Map K V → Map K W
  map_values f [] = []
  map_values f ((k, v) ∷ m) = (k, f v) ∷ map_values f m

abbrev pub on_some {κ μ} : {V : Type κ} {W : Type μ} → (V → W) → Option V → Option W
on_some f none = none
on_some f (some v) = some (f v)

module _ {ℓ κ μ} {K : Type ℓ} {V : Type κ} {W : Type μ} ⦃e : Eq K⦄ where
  pub lookup-map_values :
      (f : V → W) (k : K) (m : Map K V) → lookup k (map_values f m) ≡ on_some f (lookup k m)
  unfolding lookup map_values
  lookup-map_values f k [] = refl
  lookup-map_values f k ((j, v) ∷ m) = ground (arith, lookup-map_values f k m)
