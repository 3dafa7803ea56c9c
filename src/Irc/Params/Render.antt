-- ===== src/Irc/Params/Render.antt =====
-- internal/irc/parse.go: `SplitParams` on middles and what follows them.
use botje.Prelude.{
  ℕ, zero, suc, ◌≤◌, Text, true, false, none, some, List, [], ◌∷◌, ◌++◌, length, length-append, All,
  nat_eq, nat_beq_iff, ◌==◌, is_space, all_bytes, span, span_stop, span_run, has_prefix, skip,
  trim_prefix, arith, ◌≡◌, ◌≢◌, refl, ap,
}
use botje.Irc.Params.{is_middle, word_then, match_middle, trailing, split_in, split_params}

-- A param that may stand before the last: not empty, with no white space and no colon in it.
pub record IsMiddle (m : Text) : Type 0 where
  pub bytes : all_bytes is_middle m ≡ true
  pub some_byte : m ≢ []

-- Middles with one space behind each, and what follows them: bytes `w` without white space and
-- colon, then a colon, then anything. Where `w` is empty this is the trailing param of RFC 1459;
-- where it is not, it is a param with a colon inside.
abbrev pub render : List Text → Text → Text → Text
render [] w t = w ++ b':' ∷ t
render (m ∷ ms) w t = m ++ (b' ' ∷ render ms w t)

-- A colon in front is taken off, any other stays.
abbrev pub last_param : Text → Text → Text
last_param [] t = t
last_param (c ∷ w) t = c ∷ w ++ b':' ∷ t

middle_no_space : (c : ℕ) → is_middle c ≡ true → is_space c ≡ false
unfolding is_middle
middle_no_space c h = ground arith

middle_head : (c : ℕ) (m : Text) → all_bytes is_middle (c ∷ m) ≡ true → is_middle c ≡ true
unfolding all_bytes
middle_head c m h = ground arith

space_no_middle : is_middle b' ' ≡ false
unfolding is_middle is_space
space_no_middle = refl

-- The run of blanks is the one space.
blank_then :
    (ms : List Text) (w t : Text)
    → All IsMiddle ms
    → all_bytes is_middle w ≡ true
    → span is_space (b' ' ∷ render ms w t) ≡ (b' ' ∷ [], render ms w t)
unfolding span is_space
blank_then [] [] t a i = refl
blank_then [] (c ∷ w) t a i = rw (middle_no_space c (middle_head c w i)) refl
blank_then ([] ∷ ms) w t a i = absurd (a.0.some_byte refl)
blank_then ((c ∷ m) ∷ ms) w t a i = rw (middle_no_space c (middle_head c m a.0.bytes)) refl

match_middle-render :
    (m : Text) (ms : List Text) (w t : Text)
    → IsMiddle m
    → All IsMiddle ms
    → all_bytes is_middle w ≡ true
    → match_middle (m ++ (b' ' ∷ render ms w t)) ≡ some (m, render ms w t)
unfolding match_middle word_then is_space
match_middle-render [] ms w t i a j = absurd (i.some_byte refl)
match_middle-render (c ∷ m) ms w t i a j =
    rw
      (span_stop is_space c (m ++ (b' ' ∷ render ms w t))
        (middle_no_space c (middle_head c m i.bytes)))
      (rw (span_run is_middle (c ∷ m) b' ' (render ms w t) i.bytes space_no_middle)
        (rw (blank_then ms w t a j) refl))

colon_no_middle : is_middle b':' ≡ false
unfolding is_middle is_space
colon_no_middle = refl

-- A word that a colon ends is no middle.
no_middle : (w t : Text) → all_bytes is_middle w ≡ true → match_middle (w ++ b':' ∷ t) ≡ none
unfolding match_middle word_then span is_space is_middle
no_middle [] t i = refl
no_middle (c ∷ w) t i =
    rw (span_stop is_space c (w ++ b':' ∷ t) (middle_no_space c (middle_head c w i)))
      (rw (span_run is_middle (c ∷ w) b':' t i colon_no_middle) refl)

middle_no_colon : (c : ℕ) → is_middle c ≡ true → c == b':' ≡ false
unfolding is_middle
middle_no_colon c h = ground arith

trailing_lem :
    (w t : Text) → all_bytes is_middle w ≡ true → trailing (w ++ b':' ∷ t) ≡ last_param w t ∷ []
unfolding trailing trim_prefix has_prefix skip
trailing_lem [] t i = refl
trailing_lem (c ∷ w) t i =
    ground (arith, middle_no_colon c (middle_head c w i), nat_beq_iff c b':', nat_beq_iff b':' c)

split_tail :
    (fuel : ℕ) (w t : Text)
    → all_bytes is_middle w ≡ true
    → split_in fuel (w ++ b':' ∷ t) ≡ last_param w t ∷ []
unfolding split_in
split_tail zero w t i = trailing_lem w t i
split_tail (suc fuel) w t i = rw (no_middle w t i, split_in) (trailing_lem w t i)

split_in-render :
    (fuel : ℕ) (ms : List Text) (w t : Text)
    → All IsMiddle ms
    → all_bytes is_middle w ≡ true
    → length ms ≤ fuel
    → split_in fuel (render ms w t) ≡ ms ++ last_param w t ∷ []
unfolding split_in
split_in-render fuel [] w t a i h = split_tail fuel w t i
split_in-render zero (m ∷ ms) w t a i h = absurd (omega arith)
split_in-render (suc fuel) (m ∷ ms) w t a i h =
    rw (match_middle-render m ms w t a.0 a.1 i, split_in)
      (ap (λ l. m ∷ l) (split_in-render fuel ms w t a.1 i (omega arith)))

length-render : (ms : List Text) (w t : Text) → length ms ≤ length (render ms w t)
length-render [] w t = omega arith
length-render (m ∷ ms) w t =
    omega (arith, length-append m (b' ' ∷ render ms w t), length-render ms w t)

-- `SplitParams` gives back the middles, none of them empty or with white space or a colon anywhere,
-- each with one space behind it, and then the last param, which may hold any bytes: behind its
-- colon as it is, or else, from the first param with a colon inside on, all that is left.
pub split_params-render :
    (ms : List Text) (w t : Text)
    → All IsMiddle ms
    → all_bytes is_middle w ≡ true
    → split_params (render ms w t) ≡ ms ++ last_param w t ∷ []
unfolding split_params
split_params-render ms w t a i =
    split_in-render (length (render ms w t)) ms w t a i (length-render ms w t)
