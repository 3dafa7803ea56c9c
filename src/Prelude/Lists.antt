-- ===== src/Prelude/Lists.antt =====
-- Lists measured by native numbers, under the library's names, and Boolean membership.
use Prim.Native.Nat.{ℕ, zero, suc, ◌+◌}
use mathlib.Core.Path.{◌≡◌, refl}
use mathlib.Core.Bool.{Bool, true, false, not, ◌&&◌, ◌||◌}
use mathlib.Core.List.{List, [], ◌∷◌, ◌++◌}
use mathlib.Core.Option.{Option, none, some}
use native.Mathlib.Omega.{arith}
use botje.Prelude.Tests.{Eq, ◌==◌, if◌then◌else◌}

module _ {ℓ} {A : Type ℓ} where
  abbrev pub length : List A → ℕ
  length [] = 0
  length (x ∷ xs) = suc (length xs)

  abbrev pub head? : List A → Option A
  head? [] = none
  head? (x ∷ xs) = some x

  abbrev pub tail : List A → List A
  tail [] = []
  tail (x ∷ xs) = xs

  abbrev pub get_elem? : List A → ℕ → Option A
  get_elem? [] i = none
  get_elem? (x ∷ xs) zero = some x
  get_elem? (x ∷ xs) (suc i) = get_elem? xs i

  abbrev pub take : ℕ → List A → List A
  take zero xs = []
  take (suc n) [] = []
  take (suc n) (x ∷ xs) = x ∷ take n xs

  abbrev pub drop : ℕ → List A → List A
  drop zero xs = xs
  drop (suc n) [] = []
  drop (suc n) (x ∷ xs) = drop n xs

  -- `slices.DeleteFunc` keeps what fails the test.
  abbrev pub delete_if : (A → Bool) → List A → List A
  delete_if p [] = []
  delete_if p (x ∷ xs) = let rest = delete_if p xs in if p x then rest else x ∷ rest

  pub length-append : (xs ys : List A) → length (xs ++ ys) ≡ length xs + length ys
  length-append [] ys = omega arith
  length-append (x ∷ xs) ys = omega (arith, length-append xs ys)

abbrev pub All {ℓ κ} : {A : Type ℓ} → (A → Type κ) → List A → Type κ
All P [] = Unit
All P (x ∷ xs) = P x × All P xs

pub All-append {ℓ κ} :
    {A : Type ℓ} (P : A → Type κ) (xs ys : List A) → All P xs → All P ys → All P (xs ++ ys)
All-append P [] ys p q = q
All-append P (x ∷ xs) ys p q = (p.0, All-append P xs ys p.1 q)

module _ {ℓ} {A : Type ℓ} ⦃e : Eq A⦄ where
  unfoldable pub contains : A → List A → Bool
  contains a [] = false
  contains a (x ∷ xs) = x == a || contains a xs

  unfoldable pub distinct : List A → Bool
  distinct [] = true
  distinct (x ∷ xs) = not (contains x xs) && distinct xs

  pub contains-append :
      (a : A) (xs ys : List A) → contains a (xs ++ ys) ≡ (contains a xs || contains a ys)
  unfolding contains
  contains-append a [] ys = refl
  contains-append a (x ∷ xs) ys = ground (arith, contains-append a xs ys)

  pub distinct-concat :
      (xs : List A) (a : A)
      → distinct xs ≡ true
      → contains a xs ≡ false
      → distinct (xs ++ a ∷ []) ≡ true
  unfolding distinct contains
  distinct-concat [] a d n = refl
  distinct-concat (x ∷ xs) a d n =
      ground
        (arith, distinct-concat xs a, contains-append x xs (a ∷ []), e.beq_iff x a, e.beq_iff a x)

  pub distinct-cons :
      (x : A) (xs : List A)
      → distinct (x ∷ xs) ≡ true
      → (contains x xs ≡ false) × (distinct xs ≡ true)
  unfolding distinct
  distinct-cons x xs h = ground arith

  pub contains-cons : (a x : A) (xs : List A) → contains a (x ∷ xs) ≡ (x == a || contains a xs)
  unfolding contains
  contains-cons a x xs = refl

  pub contains-nil : (a : A) → contains a [] ≡ false
  unfolding contains
  contains-nil a = refl
