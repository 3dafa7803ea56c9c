-- ===== src/Prelude/Texts.antt =====
-- Go strings and byte slices: lists of bytes.
use Prim.Native.Nat.{ℕ, zero, suc, ◌+◌, ◌/◌, ◌%◌}
use Prim.Native.Char.{code}
use Prim.Native.String.{String}
use mathlib.Core.Path.{◌≡◌}
use mathlib.Core.Logic.{◌↔◌}
use mathlib.Core.Bool.{Bool, true, false, ◌&&◌, ◌||◌}
use mathlib.Core.List.{List, [], ◌∷◌, ◌++◌}
use native.Mathlib.Omega.{arith}
use botje.Prelude.Tests.{ltb, leb, if◌then◌else◌, Eq, ◌==◌, nat_eq}

abbrev pub Text : Type 0
Text = List ℕ

-- A literal of the source, which is ASCII wherever this is used.
abbrev pub codes : String → Text
codes String.[] = []
codes (String.◌∷◌ c s) = code c ∷ codes s

unfoldable pub text_beq : Text → Text → Bool
text_beq [] [] = true
text_beq (x ∷ xs) (y ∷ ys) = x == y && text_beq xs ys
text_beq _ _ = false

pub text_beq_iff : (a b : Text) → (text_beq a b ≡ true) ↔ (a ≡ b)
unfolding text_beq
text_beq_iff (x ∷ a) (y ∷ b) = ground (arith, text_beq_iff a b)
text_beq_iff _ _ = ground arith

instance abbrev pub text_eq : Eq Text
text_eq = record { beq = text_beq; beq_iff = text_beq_iff }

-- `strings.HasPrefix`
unfoldable pub has_prefix : Text → Text → Bool
has_prefix [] s = true
has_prefix (p ∷ ps) [] = false
has_prefix (p ∷ ps) (c ∷ cs) = p == c && has_prefix ps cs

-- `\s` of package regexp.
unfoldable pub is_space : ℕ → Bool
is_space c = c == 32 || c == 9 || c == 10 || c == 12 || c == 13

unfoldable pub is_digit : ℕ → Bool
is_digit c = leb b'0' c && leb c b'9'

unfoldable pub is_letter : ℕ → Bool
is_letter c = leb b'a' c && leb c b'z' || leb b'A' c && leb c b'Z'

unfoldable pub all_bytes : (ℕ → Bool) → Text → Bool
all_bytes p [] = true
all_bytes p (c ∷ cs) = p c && all_bytes p cs

-- The longest run of bytes that pass a test, and what follows it.
unfoldable pub span : (ℕ → Bool) → Text → Text × Text
span p [] = ([], [])
span p (c ∷ cs) = let (run, rest) = span p cs in if p c then (c ∷ run, rest) else ([], c ∷ cs)

-- `s[len(p):]`
unfoldable pub skip : Text → Text → Text
skip [] s = s
skip (q ∷ qs) [] = []
skip (q ∷ qs) (d ∷ ds) = skip qs ds

-- `strings.TrimPrefix`
unfoldable pub trim_prefix : Text → Text → Text
unfolding has_prefix skip
trim_prefix p s = if has_prefix p s then skip p s else s

-- `strings.Join`
unfoldable pub join : Text → List Text → Text
join sep [] = []
join sep (s ∷ []) = s
join sep (s ∷ t ∷ ts) = s ++ (sep ++ join sep (t ∷ ts))

-- `strings.Compare(a, b) < 0`
unfoldable pub text_ltb : Text → Text → Bool
text_ltb [] [] = false
text_ltb [] (y ∷ ys) = true
text_ltb (x ∷ xs) [] = false
text_ltb (x ∷ xs) (y ∷ ys) = ltb x y || x == y && text_ltb xs ys

-- A stable insertion sort, where `after x y` says that `x` goes behind `y`.
module _ {ℓ} {A : Type ℓ} (after : A → A → Bool) where
  unfoldable pub insert_by : A → List A → List A
  insert_by x [] = x ∷ []
  insert_by x (y ∷ ys) = let later = y ∷ insert_by x ys in if after x y then later else x ∷ y ∷ ys

  unfoldable pub sort_by : List A → List A
  unfolding insert_by
  sort_by [] = []
  sort_by (x ∷ xs) = insert_by x (sort_by xs)

-- `slices.Sort` of strings
unfoldable pub sort_texts : List Text → List Text
unfolding text_ltb sort_by
sort_texts = sort_by (λ x y. text_ltb y x)

pub span_stop : (p : ℕ → Bool) (c : ℕ) (cs : Text) → p c ≡ false → span p (c ∷ cs) ≡ ([], c ∷ cs)
unfolding span
span_stop p c cs h = rw h

pub span_run :
    (p : ℕ → Bool) (w : Text) (c : ℕ) (cs : Text)
    → all_bytes p w ≡ true
    → p c ≡ false
    → span p (w ++ c ∷ cs) ≡ (w, c ∷ cs)
unfolding span all_bytes
span_run p [] c cs a h = rw h
span_run p (x ∷ w) c cs a h = ground (arith, span_run p w c cs, a, h)

digits_in : ℕ → ℕ → Text
digits_in zero n = []
digits_in (suc fuel) n =
    let front = digits_in fuel (n / 10) in
    if ltb n 10 then (b'0' + n) ∷ [] else front ++ (b'0' + n % 10) ∷ []

-- `%d` of a natural number; a number has fewer digits than it counts.
unfoldable pub decimal : ℕ → Text
unfolding digits_in
decimal n = digits_in (suc n) n
