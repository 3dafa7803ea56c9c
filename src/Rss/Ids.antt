-- ===== src/Rss/Ids.antt =====
-- modules/rss/ids.go: the short ids of items. A counter is a natural number; `in_use` stands for the
-- history of the feeds. The loop of `next` has fuel, and `none` where it ends.
pub mod Digits
pub mod Alloc
mod Tests
use botje.Prelude.{
  ℕ, zero, suc, ◌+◌, ◌/◌, ◌%◌, Text, codes, contains, Bool, true, false, ◌||◌, List, [], ◌∷◌, ◌++◌,
  Option, none, some, get_elem?, or_else, ltb, ◌==◌, nat_eq, text_eq, if◌then◌else◌,
}

-- `rssCommands`
abbrev pub commands : List Text
commands =
    codes "add" ∷ codes "del" ∷ codes "help" ∷ codes "refresh" ∷ codes "last" ∷ codes "list" ∷ []

-- `idAlphabet`
abbrev pub alphabet : Text
alphabet = codes "ABCDEFGHIJKLMNOPQRSTUVWXYZ024689"

pub digit : ℕ → ℕ
digit n = or_else (get_elem? alphabet (n % 32)) 0

-- The loop of `encodeID`: the digits, the lowest first. A round takes five bits, so `n` rounds after
-- the first are enough.
pub digits : ℕ → ℕ → Text
unfolding digit
digits zero n = digit n ∷ []
digits (suc fuel) n = elim (n / 32) [ zero ↦ digit n ∷ [] | suc m ↦ digit n ∷ digits fuel (suc m) ]

pub reversed : Text → Text
reversed [] = []
reversed (c ∷ cs) = reversed cs ++ c ∷ []

-- `encodeID`
pub encode : ℕ → Text
unfolding digits reversed
encode n = reversed (digits n n)

-- The counter after `n`.
pub bumped : ℕ → ℕ
bumped n = if ltb 32767 (n + 1) then 1 else n + 1

pub taken : (Text → Bool) → Text → Bool
taken in_use id = contains id commands || in_use id

-- `next`: the id and the counter.
pub next : ℕ → (Text → Bool) → ℕ → Option (Text × ℕ)
unfolding encode bumped taken
next zero in_use n = none
next (suc fuel) in_use n = elim (taken in_use (encode n)) [
  | true ↦ next fuel in_use (bumped n)
  | false ↦ some (encode n, bumped n)
]
