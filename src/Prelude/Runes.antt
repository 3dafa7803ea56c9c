-- ===== src/Prelude/Runes.antt =====
-- The lengths of runes.
use Prim.Native.Nat.{ℕ, zero, suc, ◌-◌, ◌≤◌}
use mathlib.Core.Path.{◌≡◌, subst}
use mathlib.Core.Bool.{Bool, true, false}
use mathlib.Core.List.{List, [], ◌∷◌}
use native.Mathlib.Omega.{arith}
use botje.Prelude.Tests.{◌==◌, nat_eq, if◌then◌else◌}
use botje.Prelude.Lists.{length, All}
use botje.Prelude.Texts.{Text}
use botje.Prelude.Utf8.{select, widths, rune_width, runes, runes_in, push_first}

select-le : (cases : List (Bool × ℕ)) → All (λ e. e.1 ≤ 4) cases → select cases ≤ 4
unfolding select
select-le [] a = omega arith
select-le ((true, n) ∷ cases) a = a.0
select-le ((false, n) ∷ cases) a = select-le cases a.1

widths-le : (c : ℕ) (cs : Text) → All (λ e. e.1 ≤ 4) (widths c cs)
unfolding widths
widths-le c cs = omega arith

rune_width-le : (s : Text) → rune_width s ≤ 4
unfolding rune_width
rune_width-le [] = omega arith
rune_width-le (c ∷ cs) = select-le (widths c cs) (widths-le c cs)

abbrev Short : List Text → Type 0
Short rs = All (λ r. length r ≤ 4) rs

-- The first item is what is left of a rune, if one is at hand.
abbrev First : ℕ → List Text → Type 0
First zero rs = Short rs
First (suc n) [] = Unit
First (suc n) (r ∷ rs) = (length r ≤ suc n) × Short rs

First-push : (c n : ℕ) (rs : List Text) → First (suc n) rs → First (suc (suc n)) (push_first c rs)
unfolding push_first
First-push c n [] f = (omega arith, tt)
First-push c n (r ∷ rs) f = (omega arith, f.1)

Short-push :
    (c n : ℕ) (rs : List Text) → suc (suc n) ≤ 4 → First (suc n) rs → Short (push_first c rs)
unfolding push_first
Short-push c n [] b f = (omega arith, tt)
Short-push c n (r ∷ rs) b f = (omega arith, f.1)

more_than_none : (n : ℕ) → (suc (suc n) == 0) ≡ false
more_than_none n = ground arith

more_than_one : (n : ℕ) → (suc (suc n) == 1) ≡ false
more_than_one n = ground arith

one_less : (n : ℕ) → suc (suc n) - 1 ≡ suc n
one_less n = omega arith

module _ (bad : ℕ → Text) (bad_fits : (c : ℕ) → length (bad c) ≤ 4) where
  First-rune :
      (c : ℕ) (w : ℕ) (rest : List Text)
      → w ≤ 4
      → First (w - 1) rest
      → Short
          (if w == 0 then bad c ∷ rest else if w == 1 then (c ∷ []) ∷ rest else push_first c rest)
  First-rune c zero rest b f = (bad_fits c, f)
  First-rune c (suc zero) rest b f = (omega arith, f)
  First-rune c (suc (suc n)) rest b f =
      rw (more_than_none n)
        (rw (more_than_one n) (Short-push c n rest b (subst (λ k. First k rest) (one_less n) f)))

  runes_in-First : (n : ℕ) (s : Text) → First n (runes_in bad n s)
  unfolding runes_in
  runes_in-First zero [] = tt
  runes_in-First (suc n) [] = tt
  runes_in-First (suc zero) (c ∷ cs) = (omega arith, runes_in-First zero cs)
  runes_in-First (suc (suc n)) (c ∷ cs) = First-push c n _ (runes_in-First (suc n) cs)
  runes_in-First zero (c ∷ cs) =
      First-rune c (rune_width (c ∷ cs)) _ (rune_width-le (c ∷ cs))
        (runes_in-First (rune_width (c ∷ cs) - 1) cs)

pub runes-length : (s : Text) → All (λ r. length r ≤ 4) (runes s)
unfolding runes
runes-length s = runes_in-First _ (λ c. omega arith) zero s
