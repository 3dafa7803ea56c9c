-- ===== src/Prelude/Utf8.antt =====
-- UTF-8 as Go's packages `strings` and `unicode/utf8` read it, over bytes.
use Prim.Native.Nat.{ℕ, zero, suc, ◌-◌}
use mathlib.Core.Bool.{Bool, true, false, not, ◌&&◌, ◌||◌}
use mathlib.Core.List.{List, [], ◌∷◌, ◌++◌, flatten, reverse}
use botje.Prelude.Tests.{◌==◌, nat_eq, leb, if◌then◌else◌}
use botje.Prelude.Texts.{Text}

abbrev within : ℕ → ℕ → ℕ → Bool
within lo hi c = leb lo c && leb c hi

-- `n` continuation bytes at the front.
continued : ℕ → Text → Bool
continued zero s = true
continued (suc n) [] = false
continued (suc n) (c ∷ cs) = within 0x80 0xbf c && continued n cs

-- Does `s` begin with a byte of [lo, hi] and then `n` of [0x80, 0xbf]?
tail_of : ℕ → ℕ → ℕ → Text → Bool
unfolding continued
tail_of lo hi n [] = false
tail_of lo hi n (c ∷ cs) = within lo hi c && continued n cs

-- The number behind the first test that holds, 0 where none does.
unfoldable pub select : List (Bool × ℕ) → ℕ
select [] = 0
select ((b, n) ∷ cases) = if b then n else select cases

-- The first bytes of valid UTF-8, and how many bytes the rune has.
unfoldable pub widths : ℕ → Text → List (Bool × ℕ)
unfolding tail_of
widths c cs =
    (leb c 0x7f, 1)
    ∷ (within 0xc2 0xdf c && tail_of 0x80 0xbf 0 cs, 2)
    ∷ (c == 0xe0 && tail_of 0xa0 0xbf 1 cs, 3)
    ∷ (c == 0xed && tail_of 0x80 0x9f 1 cs, 3)
    ∷ (within 0xe1 0xef c && not (c == 0xed) && tail_of 0x80 0xbf 1 cs, 3)
    ∷ (c == 0xf0 && tail_of 0x90 0xbf 2 cs, 4)
    ∷ (within 0xf1 0xf3 c && tail_of 0x80 0xbf 2 cs, 4)
    ∷ (c == 0xf4 && tail_of 0x80 0x8f 2 cs, 4)
    ∷ []

-- The bytes of the rune at the front; 0 where it is no valid UTF-8 (`utf8.RuneError`, width 1).
unfoldable pub rune_width : Text → ℕ
unfolding select widths
rune_width [] = 0
rune_width (c ∷ cs) = select (widths c cs)

-- `n` more bytes belong to a rune that is already accepted.
keep_valid : ℕ → Text → Text
keep_valid n [] = []
keep_valid (suc n) (c ∷ cs) = c ∷ keep_valid n cs
keep_valid zero (c ∷ cs) =
    let w = rune_width (c ∷ cs) in
    let rest = keep_valid (w - 1) cs in if w == 0 then rest else c ∷ rest

-- `strings.ToValidUTF8(s, "")`
unfoldable pub to_valid_utf8 : Text → Text
unfolding keep_valid
to_valid_utf8 = keep_valid 0

unfoldable pub push_first : ℕ → List Text → List Text
push_first c [] = (c ∷ []) ∷ []
push_first c (r ∷ rs) = (c ∷ r) ∷ rs

-- The runes of a text, `bad` standing for each byte that is no UTF-8. With `n` bytes of the rune at
-- hand still to come, the first item is what is left of it.
unfoldable pub runes_in : (ℕ → Text) → ℕ → Text → List Text
unfolding push_first
runes_in bad n [] = []
runes_in bad (suc zero) (c ∷ cs) = (c ∷ []) ∷ runes_in bad 0 cs
runes_in bad (suc (suc n)) (c ∷ cs) = push_first c (runes_in bad (suc n) cs)
runes_in bad zero (c ∷ cs) =
    let w = rune_width (c ∷ cs) in
    let rest = runes_in bad (w - 1) cs in
    if w == 0 then bad c ∷ rest else if w == 1 then (c ∷ []) ∷ rest else push_first c rest

-- `[]rune(s)`, each rune as the bytes that `string(r)` gives: U+FFFD for what is no UTF-8.
unfoldable pub runes : Text → List Text
unfolding runes_in
runes = runes_in (λ c. 0xef ∷ 0xbf ∷ 0xbd ∷ []) 0

-- The runes as they stand in the text.
unfoldable pub pieces : Text → List Text
unfolding runes_in
pieces = runes_in (λ c. c ∷ []) 0

-- `unicode.IsSpace`, on the bytes of a rune.
unfoldable pub is_space_rune : Text → Bool
is_space_rune (c ∷ []) = within 9 13 c || c == 32
is_space_rune (c ∷ d ∷ []) = c == 0xc2 && (d == 0x85 || d == 0xa0)
is_space_rune (c ∷ d ∷ e ∷ []) =
    c == 0xe1 && d == 0x9a && e == 0x80
    || c == 0xe2 && d == 0x80 && (within 0x80 0x8a e || within 0xa8 0xa9 e || e == 0xaf)
    || c == 0xe2 && d == 0x81 && e == 0x9f
    || c == 0xe3 && d == 0x80 && e == 0x80
is_space_rune _ = false

drop_spaces : List Text → List Text
drop_spaces [] = []
drop_spaces (r ∷ rs) = let rest = drop_spaces rs in if is_space_rune r then rest else r ∷ rs

-- `strings.TrimSpace`
unfoldable pub trim_space : Text → Text
unfolding drop_spaces
trim_space s = flatten (reverse (drop_spaces (reverse (drop_spaces (pieces s)))))

add_to : Text → List Text → List Text
add_to r [] = r ∷ []
add_to r (f ∷ fs) = (r ++ f) ∷ fs

fields_in : List Text → List Text
unfolding add_to
fields_in [] = [] ∷ []
fields_in (r ∷ rs) = let rest = fields_in rs in if is_space_rune r then [] ∷ rest else add_to r rest

nonempty : List Text → List Text
nonempty [] = []
nonempty ([] ∷ fs) = nonempty fs
nonempty ((c ∷ f) ∷ fs) = (c ∷ f) ∷ nonempty fs

-- `strings.Fields`
unfoldable pub fields : Text → List Text
unfolding fields_in nonempty
fields s = nonempty (fields_in (pieces s))
