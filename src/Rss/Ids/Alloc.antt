-- ===== src/Rss/Ids/Alloc.antt =====
-- modules/rss/ids.go: an id that is free is found.
use botje.Prelude.{
  ℕ, zero, suc, ◌+◌, ◌-◌, ◌≤◌, ◌<◌, Text, contains, Bool, true, false, Option, some, length, leb,
  arith, ◌≡◌, refl, ap, if◌then◌else◌, Bool-cases, inl, inr, ◌==◌, nat_eq, text_eq, nat_beq_iff,
}
use botje.Rss.Ids.{commands, encode, bumped, taken, next}
use botje.Rss.Ids.Digits.{length-encode, encode_no_command}

-- How many ids are tried before `k`, from the counter `n` on.
abbrev steps : ℕ → ℕ → ℕ
steps n k = if leb n k then k - n else 32767 - n + k

abbrev pub Found : (Text → Bool) → Option (Text × ℕ) → Type 0
Found in_use found =
    (id : Text) × (m : ℕ) × (found ≡ some (id, m))
    × (in_use id ≡ false)
    × (contains id commands ≡ false)
    × (length id ≤ 3)
    × (1 ≤ m)
    × (m ≤ 32767)

bumped-range : (n : ℕ) → n ≤ 32767 → (1 ≤ bumped n) × (bumped n ≤ 32767)
unfolding bumped
bumped-range n h = (ground arith, ground arith)

steps-bumped :
    (n k fuel : ℕ)
    → n ≤ 32767
    → 1 ≤ k
    → k ≤ 32767
    → (n == k) ≡ false
    → steps n k < suc fuel
    → steps (bumped n) k < fuel
unfolding bumped
steps-bumped n k fuel h one most other near = ground arith

not_this :
    (in_use : Text → Bool) (n k : ℕ)
    → in_use (encode k) ≡ false
    → taken in_use (encode n) ≡ true
    → (n == k) ≡ false
unfolding taken
not_this in_use n k free used = elim (Bool-cases (n == k)) [
  | inl e ↦
      let same = ap (λ i. in_use (encode i)) ((nat_beq_iff n k).0 e) in
      absurd (ground (arith, same, encode_no_command n))
  | inr e ↦ e
]

Found-within :
    (fuel : ℕ) (in_use : Text → Bool) (n k : ℕ)
    → n ≤ 32767
    → 1 ≤ k
    → k ≤ 32767
    → in_use (encode k) ≡ false
    → steps n k < fuel
    → Found in_use (next fuel in_use n)
unfolding next taken
Found-within zero in_use n k h one most free near = absurd (omega arith)
Found-within (suc fuel) in_use n k h one most free near =
    let range = bumped-range n h in
    elim (Bool-cases (taken in_use (encode n))) [
      | inl used ↦
          rw (used, next)
            (Found-within fuel in_use (bumped n) k range.1 one most free
              (steps-bumped n k fuel h one most (not_this in_use n k free used) near))
      | inr unused ↦
          rw (unused, next)
            (
              encode n,
              bumped n,
              refl,
              (ground arith),
              encode_no_command n,
              length-encode n (omega arith),
              range.0,
              range.1,
            )
    ]

-- Where some id of the counters 1 to 32767 is not in use, 32768 rounds of `next` from any counter of
-- at most 32767 end with an id that is not in use and no command and has at most three bytes, and the
-- counter stays between 1 and 32767.
pub next-Found :
    (in_use : Text → Bool) (n k : ℕ)
    → n ≤ 32767
    → 1 ≤ k
    → k ≤ 32767
    → in_use (encode k) ≡ false
    → Found in_use (next 32768 in_use n)
next-Found in_use n k h one most free = Found-within 32768 in_use n k h one most free (ground arith)
