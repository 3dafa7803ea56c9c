-- ===== src/Rvf/Money.antt =====
-- modules/rvf/game.go: what a letter does to the money of all players.
use botje.Prelude.{
  ℕ, zero, suc, ◌+◌, ◌*◌, Text, Bool, true, false, List, [], ◌∷◌, Option, none, some, get_elem?,
  contains, trim_space, nat_eq, arith, ◌≡◌, refl, Bool-cases, Option-cases, inl, inr,
}
use botje.Rvf.{
  Game, Player, Outcome, current, change_at, advance, no_joker, lose_with, lose_turn_of,
  missed_with, earn, judge, mark, call_known, count_byte, call_letter, consonant,
}

abbrev pub total : List Player → ℕ
total [] = 0
total (p ∷ ps) = p.money + total ps

total-change_at :
    (i : ℕ) (f : Player → Player) (ps : List Player) (p : Player)
    → get_elem? ps i ≡ some p
    → total (change_at i f ps) + p.money ≡ total ps + (f p).money
unfolding change_at
total-change_at i f [] p h = absurd (cc)
total-change_at zero f (q ∷ ps) p h = ground arith
total-change_at (suc i) f (q ∷ ps) p h = omega (arith, total-change_at i f ps p h)

total-advance : (g g' : Game) → advance g ≡ some g' → total g'.players ≡ total g.players
unfolding advance
total-advance g g' h = ground arith

lose_with-total :
    (p : Player) (g g' : Game) (saved : Bool)
    → get_elem? g.players g.turn ≡ some p
    → lose_with p g ≡ some (saved, g')
    → total g'.players ≡ total g.players
unfolding lose_with no_joker
lose_with-total p g g' saved e h = elim (Option-cases (advance g)) [
  | inl z ↦ ground (arith, total-change_at g.turn no_joker g.players p e)
  | inr (x, z) ↦ ground (arith, total-change_at g.turn no_joker g.players p e, total-advance g x z)
]

lose_turn_of-total :
    (g g' : Game) (saved : Bool)
    → lose_turn_of g ≡ some (saved, g')
    → total g'.players ≡ total g.players
unfolding lose_turn_of current
lose_turn_of-total g g' saved h = elim (Option-cases (get_elem? g.players g.turn)) [
  | inl z ↦ absurd (ground arith)
  | inr (p, z) ↦ lose_with-total p g g' saved z (ground arith)
]

missed_with-total :
    (dup : Bool) (g g' : Game) (o : Outcome)
    → missed_with dup (lose_turn_of g) ≡ some (o, g')
    → (total g'.players ≡ total g.players) × (o.amount ≡ 0)
unfolding missed_with
missed_with-total dup g g' o h = elim (Option-cases (lose_turn_of g)) [
  | inl z ↦ absurd (ground arith)
  | inr ((saved, x), z) ↦ let same = lose_turn_of-total g x saved z in (ground arith, ground arith)
]

judge-total :
    (c : ℕ) (g g' : Game) (o : Outcome)
    → judge c g ≡ some (o, g')
    → total g'.players ≡ total g.players + o.amount
unfolding judge current earn
judge-total c g g' o h = by_count (count_byte c g.puzzle) refl
  where
    by_count : (n : ℕ) → count_byte c g.puzzle ≡ n → total g'.players ≡ total g.players + o.amount
    by_count zero e =
        let kept = missed_with-total false g g' o (ground arith) in omega (arith, kept.0, kept.1)
    by_count (suc n) e = elim (Option-cases (get_elem? g.players g.turn)) [
      | inl z ↦ absurd (ground arith)
      | inr (p, z) ↦ ground (arith, total-change_at g.turn (earn (g.pending * suc n)) g.players p z)
    ]

call_known-total :
    (l : Option ℕ) (g g' : Game) (o : Outcome)
    → call_known l g ≡ some (o, g')
    → total g'.players ≡ total g.players + o.amount
unfolding call_known mark
call_known-total none g g' o h = ground arith
call_known-total (some c) g g' o h = elim (Bool-cases (contains c g.guessed)) [
  | inl old ↦
      let kept = missed_with-total true g g' o (ground arith) in omega (arith, kept.0, kept.1)
  | inr new ↦ judge-total c (mark c g) g' o (ground arith)
]

-- Where `CallLetter` returns, the money of all players together has grown by exactly the amount that
-- the outcome reports, whatever the letter was.
pub call_letter-total :
    (upper : Text → Text) (text : Text) (g g' : Game) (o : Outcome)
    → call_letter upper text g ≡ some (o, g')
    → total g'.players ≡ total g.players + o.amount
unfolding call_letter
call_letter-total upper text g g' o h =
    call_known-total (consonant (upper (trim_space text))) g g' o h
