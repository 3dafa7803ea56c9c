-- ===== src/Keeper/Buffers.antt =====
-- internal/keeper/keeper.go: what the two buffers hold of the bytes that came.
use mathlib.Core.List.{flatten}
use botje.Prelude.{
  ℕ, ◌+◌, ◌-◌, ◌≤◌, Text, Bool, true, false, List, [], ◌∷◌, ◌++◌, length, length-append, take, drop,
  length-drop, drop_all, drop-append, drop-drop, take-append_short, take-append_long, append-nil,
  append_assoc, leb, ltb, tests, All, if◌then◌else◌, arith, ◌≡◌, refl, ◌∙◌, sym, ap, subst,
  Bool-cases, inl, inr, nat_eq,
}
use botje.Keeper.{Keeper, max_buffer, max_out_buffer, buffer_in, buffer_out, to_last_newline}

-- The last `n` bytes.
abbrev pub last : ℕ → Text → Text
last n xs = drop (length xs - n) xs

-- What is read while no core is there.
abbrev pub buffer_all : List Text → Keeper → Keeper
buffer_all [] k = k
buffer_all (b ∷ bs) k = buffer_all bs (buffer_in b k)

last-append :
    (n m : ℕ) (xs ys : Text)
    → length ys ≤ n
    → m ≡ length xs + length ys - n
    → drop m xs ++ ys ≡ last n (xs ++ ys)
last-append n m xs ys h e =
    sym (drop-append m xs ys (omega arith))
    ∙ ap (λ i. drop i (xs ++ ys)) (omega (arith, length-append xs ys))

last-last : (n : ℕ) (xs ys : Text) → last n (last n xs ++ ys) ≡ last n (xs ++ ys)
last-last n xs ys =
    let cut = length xs - n in
    ap (last n) (sym (drop-append cut xs ys (omega arith)))
    ∙ drop-drop (length (drop cut (xs ++ ys)) - n) cut (length (xs ++ ys) - n) (xs ++ ys)
        (omega (arith, length-drop cut (xs ++ ys), length-append xs ys))

pub buffer_in-drop :
    (b : Text) (k : Keeper)
    → (buffer_in b k).buffer ≡ drop (length k.buffer + length b - max_buffer) k.buffer ++ b
unfolding buffer_in
buffer_in-drop b k = elim (Bool-cases (ltb max_buffer (length k.buffer + length b))) [
  | inl full ↦ elim (Bool-cases (leb (length k.buffer) (length k.buffer + length b - max_buffer))) [
    | inl all ↦ rw full (rw all (ap (λ l. l ++ b) (sym (drop_all _ k.buffer (omega tests)))))
    | inr some ↦ rw full (rw some refl)
  ]
  | inr fits ↦ rw fits (ap (λ i. drop i k.buffer ++ b) (none_over fits))
]
  where
    none_over :
        ltb max_buffer (length k.buffer + length b) ≡ false
        → 0 ≡ length k.buffer + length b - max_buffer
    none_over fits = omega tests

buffer_in-last :
    (b : Text) (k : Keeper)
    → length b ≤ max_buffer
    → (buffer_in b k).buffer ≡ last max_buffer (k.buffer ++ b)
buffer_in-last b k h =
    buffer_in-drop b k
    ∙ last-append max_buffer (length k.buffer + length b - max_buffer) k.buffer b h refl

last_all : (n : ℕ) (xs : Text) → length xs ≤ n → last n xs ≡ xs
last_all n xs h = ap (λ i. drop i xs) (none_over h)
  where
    none_over : length xs ≤ n → length xs - n ≡ 0
    none_over h = omega arith

length-last : (n : ℕ) (xs : Text) → length (last n xs) ≤ n
length-last n xs = omega (arith, length-drop (length xs - n) xs)

-- While no core is there, onto a buffer of at most 4 MiB and in pieces of at most 4 MiB, the buffer
-- holds the last bytes of all that came, as many as fit.
pub buffer_all-last :
    (bs : List Text) (k : Keeper)
    → All (λ b. length b ≤ max_buffer) bs
    → length k.buffer ≤ max_buffer
    → (buffer_all bs k).buffer ≡ last max_buffer (k.buffer ++ flatten bs)
unfolding flatten
buffer_all-last [] k a h =
    sym (ap (last max_buffer) (append-nil k.buffer) ∙ last_all max_buffer k.buffer h)
buffer_all-last (b ∷ bs) k a h =
    let here = buffer_in-last b k a.0 in
    buffer_all-last bs (buffer_in b k) a.1 (rw here (length-last max_buffer (k.buffer ++ b)))
    ∙ ap (λ l. last max_buffer (l ++ flatten bs)) here
    ∙ last-last max_buffer (k.buffer ++ b) (flatten bs)
    ∙ ap (last max_buffer) (append_assoc k.buffer b (flatten bs))

abbrev pub held_out : Text → Text × Bool
held_out xs =
    if ltb max_out_buffer (length xs)
    then (to_last_newline (take max_out_buffer xs), true)
    else (xs, false)

pub held_out_fits : (xs : Text) → ltb max_out_buffer (length xs) ≡ false → held_out xs ≡ (xs, false)
held_out_fits xs fits = rw fits refl

pub held_out_over :
    (xs : Text)
    → ltb max_out_buffer (length xs) ≡ true
    → held_out xs ≡ (to_last_newline (take max_out_buffer xs), true)
held_out_over xs over = rw over refl

-- The out-buffer is what is held of `xs`.
pub record Holds (xs : Text) (k : Keeper) : Type 0 where
  pub bytes : k.out_buf ≡ (held_out xs).0
  pub dropped : k.out_dropped ≡ (held_out xs).1

abbrev pub send_all : List Text → Keeper → Keeper
send_all [] k = k
send_all (b ∷ bs) k = send_all bs (buffer_out b k)

pub buffer_out_closed : (b : Text) (k : Keeper) → k.out_dropped ≡ true → buffer_out b k ≡ k
unfolding buffer_out
buffer_out_closed b k d = rw d refl

zero_of : (n : ℕ) → ltb 0 n ≡ false → n ≡ 0
zero_of n e = omega tests

longer : (n m k : ℕ) (xs : Text) → ltb n m ≡ true → length xs ≡ m + k → ltb n (length xs) ≡ true
longer n m k xs h e = ground arith

buffer_out_over :
    (b : Text) (k : Keeper)
    → k.out_dropped ≡ false
    → length k.out_buf ≤ max_out_buffer
    → ltb max_out_buffer (length k.out_buf + length b) ≡ true
    → (buffer_out b k).out_buf ≡ to_last_newline (take max_out_buffer (k.out_buf ++ b))
unfolding buffer_out
buffer_out_over b k d room over = rw d (
    rw over (
      ap to_last_newline (
        roomy
        ∙ sym (
            take-append_long max_out_buffer (max_out_buffer - length k.out_buf) k.out_buf b
              (omega arith)))))
  where
    free : ℕ
    free = max_out_buffer - length k.out_buf

    roomy : (if ltb 0 free then k.out_buf ++ take free b else k.out_buf) ≡ k.out_buf ++ take free b
    roomy = elim (Bool-cases (ltb 0 free)) [
      | inl e ↦ rw e refl
      | inr e ↦ rw e (sym (ap (λ i. k.out_buf ++ take i b) (zero_of free e) ∙ append-nil k.out_buf))
    ]

buffer_out_over_dropped :
    (b : Text) (k : Keeper)
    → k.out_dropped ≡ false
    → ltb max_out_buffer (length k.out_buf + length b) ≡ true
    → (buffer_out b k).out_dropped ≡ true
unfolding buffer_out
buffer_out_over_dropped b k d over = rw d (rw over refl)

buffer_out_fits :
    (b : Text) (k : Keeper)
    → k.out_dropped ≡ false
    → ltb max_out_buffer (length k.out_buf + length b) ≡ false
    → buffer_out b k ≡ record k { out_buf = k.out_buf ++ b }
unfolding buffer_out
buffer_out_fits b k d fits = rw d (rw fits refl)

abbrev pub kept : Text × Bool → Text
kept r = r.0

abbrev pub cut_off : Text × Bool → Bool
cut_off r = r.1

Holds-over :
    (b xs : Text) (k : Keeper)
    → Holds xs k
    → ltb max_out_buffer (length xs) ≡ true
    → Holds (xs ++ b) (buffer_out b k)
Holds-over b xs k h over =
    let was = held_out_over xs over in
    let now =
      held_out_over (xs ++ b)
        (longer max_out_buffer (length xs) (length b) (xs ++ b) over (length-append xs b)) in
    let same = buffer_out_closed b k (h.dropped ∙ ap cut_off was) in
    record {
      bytes =
          ap (λ (x : Keeper). x.out_buf) same
          ∙ h.bytes
          ∙ ap kept was
          ∙ ap to_last_newline (sym (take-append_short max_out_buffer xs b (omega tests)))
          ∙ sym (ap kept now);
      dropped =
          ap (λ (x : Keeper). x.out_dropped) same
          ∙ h.dropped
          ∙ ap cut_off was
          ∙ sym (ap cut_off now);
    }

module _ (b xs : Text) (k : Keeper) (bytes : k.out_buf ≡ xs) (going : k.out_dropped ≡ false) where
  Holds-full :
      ltb max_out_buffer (length xs) ≡ false
      → ltb max_out_buffer (length xs + length b) ≡ true
      → Holds (xs ++ b) (buffer_out b k)
  Holds-full fits over =
      let now = held_out_over (xs ++ b) (rw (length-append xs b) over) in
      let over' = subst (λ l. ltb max_out_buffer (length l + length b) ≡ true) (sym bytes) over in
      record {
        bytes =
            buffer_out_over b k going
              (subst (λ l. length l ≤ max_out_buffer) (sym bytes) (omega tests)) over'
            ∙ ap (λ l. to_last_newline (take max_out_buffer (l ++ b))) bytes
            ∙ sym (ap kept now);
        dropped = buffer_out_over_dropped b k going over' ∙ sym (ap cut_off now);
      }

  Holds-room : ltb max_out_buffer (length xs + length b) ≡ false → Holds (xs ++ b) (buffer_out b k)
  Holds-room fits =
      let now = held_out_fits (xs ++ b) (rw (length-append xs b) fits) in
      let same =
        buffer_out_fits b k going
          (subst (λ l. ltb max_out_buffer (length l + length b) ≡ false) (sym bytes) fits) in
      record {
        bytes = ap (λ (x : Keeper). x.out_buf) same ∙ ap (λ l. l ++ b) bytes ∙ sym (ap kept now);
        dropped = ap (λ (x : Keeper). x.out_dropped) same ∙ going ∙ sym (ap cut_off now);
      }

buffer_out-Holds : (b xs : Text) (k : Keeper) → Holds xs k → Holds (xs ++ b) (buffer_out b k)
buffer_out-Holds b xs k h = elim (Bool-cases (ltb max_out_buffer (length xs))) [
  | inl over ↦ Holds-over b xs k h over
  | inr fits ↦
      let was = held_out_fits xs fits in
      let bytes = h.bytes ∙ ap kept was in
      let going = h.dropped ∙ ap cut_off was in
      elim (Bool-cases (ltb max_out_buffer (length xs + length b))) [
        | inl full ↦ Holds-full b xs k bytes going fits full
        | inr room ↦ Holds-room b xs k bytes going room
      ]
]

pub send_all-Holds :
    (bs : List Text) (xs : Text) (k : Keeper)
    → Holds xs k
    → Holds (xs ++ flatten bs) (send_all bs k)
unfolding flatten
send_all-Holds [] xs k h = rw append-nil h
send_all-Holds (b ∷ bs) xs k h =
    rw (← append_assoc xs b (flatten bs))
      (send_all-Holds bs (xs ++ b) (buffer_out b k) (buffer_out-Holds b xs k h))
