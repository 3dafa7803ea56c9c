-- ===== src/Core/Limits.antt =====
-- internal/core: bounds on what goes out, and the autojoin channels kept free of doubles.
use botje.Prelude.{
  ◌≤◌, Text, delete_if, Bool, true, false, ◌||◌, List, [], ◌∷◌, ◌++◌, length, ◌==◌, nat_eq, text_eq,
  All, All-append, Bool-cases, inl, inr, arith, ◌≡◌, refl,
}
use botje.Core.Link.{Link, Does, wire, wire_high, dispatches}
use botje.Core.Outgoing.{has_channel, add_channel, remove_channel}

-- A line for the wire has at most 448 bytes.
abbrev pub Short : Does → Type 0
Short (wire t) = length t ≤ 448
Short (wire_high t) = length t ≤ 448
Short (dispatches ev) = Unit

-- The autojoin channels change by a new one (the commands and an invitation) or by one less.
pub data Change : Type 0 where
  adds : Text → Change
  removes : Text → Change

module _ (fold : Text → Text → Bool) where
  abbrev pub Apart : Text → List Text → Type 0
  Apart ch chs = All (λ later. fold ch later ≡ false) chs

  -- No channel is there twice, in whatever case.
  abbrev pub NoDoubles : List Text → Type 0
  NoDoubles [] = Unit
  NoDoubles (ch ∷ chs) = Apart ch chs × NoDoubles chs

  abbrev pub after_changes : List Change → List Text → List Text
  after_changes [] chs = chs
  after_changes (adds ch ∷ rest) chs = after_changes rest (add_channel fold ch chs).0
  after_changes (removes ch ∷ rest) chs = after_changes rest (remove_channel fold ch chs).0

  delete_if-Apart :
      (p : Text → Bool) (ch : Text) (chs : List Text) → Apart ch chs → Apart ch (delete_if p chs)
  delete_if-Apart p ch [] a = tt
  delete_if-Apart p ch (x ∷ xs) a = elim (Bool-cases (p x)) [
    | inl out ↦ rw out (delete_if-Apart p ch xs a.1)
    | inr stays ↦ rw stays (a.0, delete_if-Apart p ch xs a.1)
  ]

  delete_if-NoDoubles :
      (p : Text → Bool) (chs : List Text) → NoDoubles chs → NoDoubles (delete_if p chs)
  delete_if-NoDoubles p [] n = tt
  delete_if-NoDoubles p (x ∷ xs) n = elim (Bool-cases (p x)) [
    | inl out ↦ rw out (delete_if-NoDoubles p xs n.1)
    | inr stays ↦ rw stays (delete_if-Apart p x xs n.0, delete_if-NoDoubles p xs n.1)
  ]

  append-NoDoubles :
      (ch : Text) (chs : List Text)
      → has_channel fold ch chs ≡ false
      → NoDoubles chs
      → NoDoubles (chs ++ ch ∷ [])
  append-NoDoubles ch [] h n = (tt, tt)
  append-NoDoubles ch (x ∷ xs) h n =
      let (first, rest) = or-false (fold x ch) (has_channel fold ch xs) h in
      (
        All-append (λ later. fold x later ≡ false) xs (ch ∷ []) n.0 (first, tt),
        append-NoDoubles ch xs rest n.1,
      )
    where
      or-false : (a b : Bool) → a || b ≡ false → (a ≡ false) × (b ≡ false)
      or-false true b e = absurd (ground (arith, e))
      or-false false b e = (refl, e)

  add_channel-NoDoubles :
      (ch : Text) (chs : List Text) → NoDoubles chs → NoDoubles (add_channel fold ch chs).0
  unfolding add_channel
  add_channel-NoDoubles ch chs n = elim (Bool-cases (has_channel fold ch chs)) [
    | inl there ↦ rw there n
    | inr absent ↦ rw absent (append-NoDoubles ch chs absent n)
  ]

  remove_channel-NoDoubles :
      (ch : Text) (chs : List Text) → NoDoubles chs → NoDoubles (remove_channel fold ch chs).0
  unfolding remove_channel
  remove_channel-NoDoubles ch chs n =
      let left = delete_if (λ have. fold have ch) chs in
      elim (Bool-cases (length left == length chs)) [
        | inl same ↦ rw same n
        | inr less ↦ rw less (delete_if-NoDoubles (λ have. fold have ch) chs n)
      ]

  -- If no two autojoin channels are equal but for case, then none are after any additions and
  -- removals, in any order.
  pub after_changes-NoDoubles :
      (changes : List Change) (chs : List Text)
      → NoDoubles chs
      → NoDoubles (after_changes changes chs)
  after_changes-NoDoubles [] chs n = n
  after_changes-NoDoubles (adds ch ∷ rest) chs n =
      after_changes-NoDoubles rest (add_channel fold ch chs).0 (add_channel-NoDoubles ch chs n)
  after_changes-NoDoubles (removes ch ∷ rest) chs n =
      after_changes-NoDoubles rest (remove_channel fold ch chs).0
        (remove_channel-NoDoubles ch chs n)
