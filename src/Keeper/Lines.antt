-- ===== src/Keeper/Lines.antt =====
-- internal/keeper/keeper.go: what waits for IRC, in whole lines.
use mathlib.Core.List.{flatten}
use botje.Prelude.{
  ℕ, ◌≤◌, ◌<◌, Text, true, false, List, [], ◌∷◌, ◌++◌, length, length-append, take,
  take-append_short, contains, ◌==◌, ltb, tests, if◌then◌else◌, arith, ◌≡◌, refl, ◌∙◌, sym, ap,
  subst, Bool-cases, inl, inr, ◌⊎◌, nat_eq, nat_beq_iff,
}
use botje.Keeper.{Keeper, max_out_buffer, buffer_out, to_last_newline}
use botje.Keeper.Buffers.{
  held_out_fits, held_out_over, Holds, kept, cut_off, send_all, buffer_out_closed, send_all-Holds,
}

-- `front` is the whole lines at the front of `xs`: it is empty or ends with a newline, and what it
-- leaves of `xs` has no newline.
pub record WholeLines (xs front : Text) : Type 0 where
  pub left : Text
  pub split : front ++ left ≡ xs
  pub unbroken : contains 10 left ≡ false
  pub ended : (front ≡ []) ⊎ ((init : Text) × (front ≡ init ++ 10 ∷ []))

cons-WholeLines :
    (c : ℕ) (cs front : Text)
    → WholeLines cs front
    → WholeLines (c ∷ cs) (elim front [ [] ↦ if c == 10 then c ∷ [] else [] | d ∷ ds ↦ c ∷ d ∷ ds ])
unfolding contains
cons-WholeLines c cs [] w = elim (Bool-cases (c == 10)) [
  | inl newline ↦ rw newline (record {
    left = w.left;
    split = ap (λ l. c ∷ l) w.split;
    unbroken = w.unbroken;
    ended = inr ([], ap (λ d. d ∷ []) (ground (arith, newline, nat_beq_iff c 10)));
  })
  | inr other ↦ rw other (record {
    left = c ∷ w.left;
    split = ap (λ l. c ∷ l) w.split;
    unbroken = rw other w.unbroken;
    ended = inl refl;
  })
]
cons-WholeLines c cs (d ∷ ds) w = record {
  left = w.left;
  split = ap (λ l. c ∷ l) w.split;
  unbroken = w.unbroken;
  ended = elim w.ended [ inl e ↦ absurd (cc) | inr (init, e) ↦ inr (c ∷ init, ap (λ l. c ∷ l) e) ];
}

to_last_newline-WholeLines : (xs : Text) → WholeLines xs (to_last_newline xs)
unfolding to_last_newline contains
to_last_newline-WholeLines [] = record {
  left = [];
  split = refl;
  unbroken = refl;
  ended = inl refl;
}
to_last_newline-WholeLines (c ∷ cs) =
    cons-WholeLines c cs (to_last_newline cs) (to_last_newline-WholeLines cs)

-- What waits of `xs`: all of it while it fits, and else the whole lines at the front of what fits.
abbrev pub Waits : Text → Keeper → Type 0
Waits xs k =
    ((length xs ≤ max_out_buffer) × (k.out_buf ≡ xs) × (k.out_dropped ≡ false))
    ⊎ ((max_out_buffer < length xs)
        × WholeLines (take max_out_buffer xs) k.out_buf
        × (k.out_dropped ≡ true))

Holds-Waits : (xs : Text) (k : Keeper) → Holds xs k → Waits xs k
Holds-Waits xs k h = elim (Bool-cases (ltb max_out_buffer (length xs))) [
  | inl over ↦
      let cut = held_out_over xs over in
      inr (
        omega (tests, over),
        subst (WholeLines (take max_out_buffer xs)) (sym (h.bytes ∙ ap kept cut))
            (to_last_newline-WholeLines (take max_out_buffer xs)),
        h.dropped ∙ ap cut_off cut,
      )
  | inr fits ↦
      let whole = held_out_fits xs fits in
      inl (omega (tests, fits), h.bytes ∙ ap kept whole, h.dropped ∙ ap cut_off whole)
]

send_all_closed : (bs : List Text) (k : Keeper) → k.out_dropped ≡ true → send_all bs k ≡ k
send_all_closed [] k d = refl
send_all_closed (b ∷ bs) k d =
    let same = buffer_out_closed b k d in
    send_all_closed bs (buffer_out b k) (ap (λ (x : Keeper). x.out_dropped) same ∙ d) ∙ same

none_over : (n m : ℕ) → n ≤ m → ltb m n ≡ false
none_over n m h = ground (arith, h)

-- While IRC is away, from a buffer in which some bytes wait this way, whatever the core sends after
-- them, all of it waits if it fits, and else the whole lines at the front of what fits: these are
-- empty or end with a newline, and what is cut off of what fits has no newline.
pub send_all-Waits :
    (bs : List Text) (xs : Text) (k : Keeper)
    → Waits xs k
    → Waits (xs ++ flatten bs) (send_all bs k)
send_all-Waits bs xs k (inl (fits, bytes, going)) =
    let whole = held_out_fits xs (none_over (length xs) max_out_buffer fits) in
    Holds-Waits (xs ++ flatten bs) (send_all bs k) (
      send_all-Holds bs xs k
        (record { bytes = bytes ∙ sym (ap kept whole); dropped = going ∙ sym (ap cut_off whole) }))
send_all-Waits bs xs k (inr (over, lines, d)) =
    let same = send_all_closed bs k d in
    inr (
      omega (arith, over, length-append xs (flatten bs)),
      subst (λ t. WholeLines t (send_all bs k).out_buf)
          (sym (take-append_short max_out_buffer xs (flatten bs) (omega (arith, over))))
          (subst (λ (x : Keeper). WholeLines (take max_out_buffer xs) x.out_buf) (sym same) lines),
      ap (λ (x : Keeper). x.out_dropped) same ∙ d,
    )
