-- ===== src/Rss/Ids/Digits.antt =====
-- modules/rss/ids.go: an id says which number it is for.
use botje.Prelude.{
  ℕ, zero, suc, ◌+◌, ◌*◌, ◌/◌, ◌%◌, ◌≤◌, ◌<◌, Text, contains, Bool, true, false, ◌&&◌, [], ◌∷◌,
  ◌++◌, get_elem?, or_else, length, length-append, ltb, ◌==◌, nat_eq, nat_beq_iff, text_eq,
  text_beq, subst, All, All-append, append-nil, append_assoc, arith, ◌≡◌, refl, ◌∙◌, sym, ap,
  if◌then◌else◌, Bool-cases, inl, inr,
}
use botje.Rss.Ids.{commands, alphabet, digit, digits, reversed, encode}

-- The place of a letter in the alphabet.
place_in : ℕ → Text → ℕ
place_in c [] = 0
place_in c (d ∷ ds) = if d == c then 0 else suc (place_in c ds)

pub place : ℕ → ℕ
unfolding place_in
place c = place_in c alphabet

-- The places of the first `k` digits, and that no digit is a small letter.
right_below : ℕ → Bool
right_below zero = true
right_below (suc k) = place (digit k) == k && (ltb (digit k) 97 && right_below k)

digits_right : right_below 32 ≡ true
unfolding right_below place place_in digit
digits_right = refl

right_at : (k i : ℕ) → right_below k ≡ true → i < k → (place (digit i) ≡ i) × (digit i < 97)
unfolding right_below
right_at zero i r h = absurd (omega arith)
right_at (suc k) i r h = elim (Bool-cases (i == k)) [
  | inl e ↦ (ground (arith, nat_beq_iff i k), ground (arith, nat_beq_iff i k))
  | inr e ↦ right_at k i (ground arith) (ground (arith, nat_beq_iff i k))
]

digit_rest : (n : ℕ) → digit (n % 32) ≡ digit n
unfolding digit
digit_rest n = ap (λ i. or_else (get_elem? alphabet i) 0) (same n)
  where
    same : (n : ℕ) → n % 32 % 32 ≡ n % 32
    same n = omega arith

pub place-digit : (n : ℕ) → place (digit n) ≡ n % 32
place-digit n = ap place (sym (digit_rest n)) ∙ (right_at 32 (n % 32) digits_right (omega arith)).0

-- What the digits stand for, the lowest first.
unfoldable pub value : Text → ℕ
unfolding place
value [] = 0
value (c ∷ cs) = place c + 32 * value cs

value-digits : (fuel n : ℕ) → n ≤ fuel → value (digits fuel n) ≡ n
unfolding digits value
value-digits zero n h = omega (arith, place-digit n)
value-digits (suc fuel) n h = by_rest (n / 32) refl (λ m le. value-digits fuel m le)
  where
    by_rest :
        (m : ℕ)
        → n / 32 ≡ m
        → ((m : ℕ) → m ≤ fuel → value (digits fuel m) ≡ m)
        → value (digits (suc fuel) n) ≡ n
    by_rest zero e rest = rw (e, digits) (omega (arith, place-digit n))
    by_rest (suc m) e rest =
        rw (e, digits) (omega (arith, place-digit n, rest (suc m) (omega arith)))

reversed-append : (s t : Text) → reversed (s ++ t) ≡ reversed t ++ reversed s
unfolding reversed
reversed-append [] t = sym (append-nil (reversed t))
reversed-append (c ∷ s) t =
    ap (λ r. r ++ c ∷ []) (reversed-append s t) ∙ append_assoc (reversed t) (reversed s) (c ∷ [])

reversed-reversed : (s : Text) → reversed (reversed s) ≡ s
unfolding reversed
reversed-reversed [] = refl
reversed-reversed (c ∷ s) =
    reversed-append (reversed s) (c ∷ []) ∙ ap (λ r. c ∷ r) (reversed-reversed s)

-- What an id stands for.
pub decode : Text → ℕ
decode id = value (reversed id)

-- An id is decoded to the number it was made for, so no two numbers share one.
pub decode-encode : (n : ℕ) → decode (encode n) ≡ n
unfolding decode encode
decode-encode n = ap value (reversed-reversed (digits n n)) ∙ value-digits n n (omega arith)

length-reversed : (s : Text) → length (reversed s) ≡ length s
unfolding reversed
length-reversed [] = refl
length-reversed (c ∷ s) = omega (arith, length-append (reversed s) (c ∷ []), length-reversed s)

-- One digit more reaches 32 times as far.
length-longer :
    (b k : ℕ)
    → ((fuel m : ℕ) → suc m < b → length (digits fuel (suc m)) ≤ k)
    → 1 ≤ b
    → (fuel n : ℕ) → n < b * 32
    → length (digits fuel n) ≤ suc k
unfolding digits
length-longer b k shorter one zero n h = omega arith
length-longer b k shorter one (suc fuel) n h = by_rest (n / 32) refl
  where
    by_rest : (m : ℕ) → n / 32 ≡ m → length (digits (suc fuel) n) ≤ suc k
    by_rest zero e = rw (e, digits) (omega arith)
    by_rest (suc m) e = rw (e, digits) (omega (arith, shorter fuel m (omega arith)))

length-digits : (fuel n : ℕ) → n < 32768 → length (digits fuel n) ≤ 3
length-digits =
    length-longer 1024 2
      (λ fuel m h.
        length-longer 32 1
          (λ fuel m h.
            length-longer 1 0 (λ fuel m h. absurd (omega arith)) (omega arith) fuel (suc m) h)
          (omega arith) fuel (suc m) h)
      (omega arith)

pub length-encode : (n : ℕ) → n < 32768 → length (encode n) ≤ 3
unfolding encode
length-encode n h = omega (arith, length-reversed (digits n n), length-digits n n h)

pub digit_small : (n : ℕ) → digit n < 97
digit_small n =
    subst (λ d. d < 97) (digit_rest n) (right_at 32 (n % 32) digits_right (omega arith)).1

abbrev Small : Text → Type 0
Small s = All (λ c. c < 97) s

Small-digits : (fuel n : ℕ) → Small (digits fuel n)
unfolding digits
Small-digits zero n = (digit_small n, tt)
Small-digits (suc fuel) n = by_rest (n / 32) refl (λ m. Small-digits fuel m)
  where
    by_rest : (m : ℕ) → n / 32 ≡ m → ((m : ℕ) → Small (digits fuel m)) → Small (digits (suc fuel) n)
    by_rest zero e rest = rw (e, digits) (digit_small n, tt)
    by_rest (suc m) e rest = rw (e, digits) (digit_small n, rest (suc m))

Small-reversed : (s : Text) → Small s → Small (reversed s)
unfolding reversed
Small-reversed [] a = tt
Small-reversed (c ∷ s) a =
    All-append (λ c. c < 97) (reversed s) (c ∷ []) (Small-reversed s a.1) (a.0, tt)

no_command : (s : Text) → Small s → contains s commands ≡ false
unfolding contains text_beq
no_command [] a = refl
no_command (c ∷ s) a = ground (arith, a.0)

-- An id is written in capitals and figures, so it is never a command.
pub encode_no_command : (n : ℕ) → contains (encode n) commands ≡ false
unfolding encode
encode_no_command n = no_command (encode n) (Small-reversed (digits n n) (Small-digits n n))
