-- ===== src/Rvf/Moves.antt =====
-- modules/rvf/game.go: the moves of a game with players, whose turn is one of theirs.
use botje.Prelude.{
  ℕ, zero, suc, ◌+◌, ◌*◌, ◌%◌, ◌<◌, Bool, true, false, List, [], ◌∷◌, Option, none, some, length,
  get_elem?, contains, distinct, ltb, nat_eq, arith, ◌≡◌, refl, ◌∙◌, sym, ap, Bool-cases, inl, inr,
}
use botje.Rvf.{
  Game, Player, action, letter, Segment, SpinFx, no_joker, lose_with, outcome, miss, hit, invalid,
  broke, missed_with, with_lost, call_known, judge, mark, earn, pay, sold, buy_known, count_byte,
  current, change_at, change_current, advance, lose_turn_of,
}

-- A turn in range, no letter guessed twice, and money at stake exactly while a letter is owed.
pub record IsValid (g : Game) : Type 0 where
  pub turn_in_range : g.turn < length g.players
  pub once : distinct g.guessed ≡ true
  pub at_stake : g.state ≡ action → g.pending ≡ 0
  pub staked : g.state ≡ letter → 0 < g.pending

-- What a move gives back where it does not panic, with the game after it.
abbrev pub Returns {ℓ} : {A : Type ℓ} → ℕ → Option (A × Game) → Type ℓ
Returns {A = A} n o = (a : A) × (g : Game) × (o ≡ some (a, g)) × IsValid g × (length g.players ≡ n)

pub length-change_at :
    (i : ℕ) (f : Player → Player) (ps : List Player) → length (change_at i f ps) ≡ length ps
unfolding change_at
length-change_at i f [] = refl
length-change_at zero f (p ∷ ps) = refl
length-change_at (suc i) f (p ∷ ps) = ap suc (length-change_at i f ps)

pub get_elem?-lt {ℓ} :
    {A : Type ℓ} (xs : List A) (i : ℕ) → i < length xs → (x : A) × (get_elem? xs i ≡ some x)
get_elem?-lt [] i h = absurd (omega arith)
get_elem?-lt (x ∷ xs) zero h = (x, refl)
get_elem?-lt (x ∷ xs) (suc i) h = get_elem?-lt xs i (omega arith)

-- The next player's turn.
abbrev pub passed : Game → Game
passed g = record g { turn = (g.turn + 1) % length g.players; state = action; pending = 0 }

pub resting :
    (g : Game)
    → g.turn < length g.players
    → distinct g.guessed ≡ true
    → g.state ≡ action
    → g.pending ≡ 0
    → IsValid g
resting g h d s z = record {
  turn_in_range = h;
  once = d;
  at_stake = λ e. z;
  staked = λ e. absurd (letter-action (sym e ∙ s));
}
  where
    letter-action : letter ≡ action → ⊥
    letter-action e = cc

pub advance-passed : (g : Game) → 0 < length g.players → advance g ≡ some (passed g)
unfolding advance
advance-passed g h = by_players g.players refl
  where
    by_players : (ps : List Player) → g.players ≡ ps → advance g ≡ some (passed g)
    by_players [] e = absurd (ground arith)
    by_players (p ∷ ps) e = ground arith

pub passed-IsValid :
    (g : Game) → 0 < length g.players → distinct g.guessed ≡ true → IsValid (passed g)
passed-IsValid g h d = resting (passed g) (omega arith) d refl refl

pub lose_turn_valid :
    (g : Game)
    → g.turn < length g.players
    → distinct g.guessed ≡ true
    → Returns (length g.players) (lose_turn_of g)
unfolding lose_turn_of lose_with current
lose_turn_valid g h d =
    let (p, e) = get_elem?-lt g.players g.turn h in
    elim (Bool-cases p.joker) [
      | inl held ↦
          let kept = record (change_current no_joker g) { state = action; pending = 0 } in
          let same = length-change_at g.turn no_joker g.players in
          (
            true,
            kept,
            rw (e, lose_turn_of) (rw held refl),
            resting kept (omega (arith, h, same)) d refl refl,
            same,
          )
      | inr gone ↦ (
        false,
        passed g,
        rw (e, lose_turn_of) (rw gone (rw (advance-passed g (omega arith), lose_turn_of) refl)),
        passed-IsValid g (omega arith) d,
        refl,
      )
    ]

missed_with_valid :
    (dup : Bool) (n : ℕ) (o : Option (Bool × Game)) → Returns n o → Returns n (missed_with dup o)
unfolding missed_with
missed_with_valid dup n o (saved, g, e, v, same) =
    (record (outcome miss) { dup = dup; joker_saved = saved }, g, rw e refl, v, same)

pub with_lost-IsValid :
    (seg : Segment) (lost n : ℕ) (o : Option (Bool × Game))
    → Returns n o
    → (fx : SpinFx) × (g : Game) × (with_lost seg lost o ≡ some (seg, fx, g))
      × IsValid g
      × (length g.players ≡ n)
unfolding with_lost
with_lost-IsValid seg lost n o (saved, g, e, v, same) =
    (record { joker_saved = saved; lost = lost }, g, rw e refl, v, same)

distinct_mark :
    (c : ℕ) (guessed : List ℕ)
    → contains c guessed ≡ false
    → distinct guessed ≡ true
    → distinct (c ∷ guessed) ≡ true
unfolding distinct
distinct_mark c guessed n d = ground arith

pub call_known_valid :
    (o : Option ℕ) (g : Game) → IsValid g → Returns (length g.players) (call_known o g)
unfolding call_known judge mark current
call_known_valid none g v = (outcome invalid, g, refl, v, refl)
call_known_valid (some c) g v = elim (Bool-cases (contains c g.guessed)) [
  | inl old ↦ rw old (
      missed_with_valid true (length g.players) (lose_turn_of g)
        (lose_turn_valid g v.turn_in_range v.once))
  | inr new ↦ rw new (judged (distinct_mark c g.guessed new v.once))
]
  where
    judged : distinct (c ∷ g.guessed) ≡ true → Returns (length g.players) (judge c (mark c g))
    judged d = by_count (count_byte c g.puzzle) refl
      where
        by_count :
            (n : ℕ) → count_byte c g.puzzle ≡ n → Returns (length g.players) (judge c (mark c g))
        by_count zero e =
            rw (e, judge)
              (missed_with_valid false (length g.players) (lose_turn_of (mark c g))
                (lose_turn_valid (mark c g) v.turn_in_range d))
        by_count (suc n) e =
            let (p, there) = get_elem?-lt g.players g.turn v.turn_in_range in
            let won = g.pending * suc n in
            let after = record (change_current (earn won) (mark c g)) {
              state = action;
              pending = 0;
            } in
            let same = length-change_at g.turn (earn won) g.players in
            (
              record (outcome hit) { count = suc n; amount = won },
              after,
              rw (e, judge) (rw there refl),
              resting after (omega (arith, v.turn_in_range, same)) d refl refl,
              same,
            )

sold_valid :
    (c cost : ℕ) (g : Game)
    → IsValid g
    → contains c g.guessed ≡ false
    → Returns (length g.players) (sold c cost g)
unfolding sold mark
sold_valid c cost g v new = by_count (count_byte c g.puzzle) refl
  where
    after : Game
    after = mark c (change_current (pay cost) g)

    same : length after.players ≡ length g.players
    same = length-change_at g.turn (pay cost) g.players

    there : after.turn < length after.players
    there = omega (arith, v.turn_in_range, same)

    d : distinct after.guessed ≡ true
    d = distinct_mark c g.guessed new v.once

    by_count : (n : ℕ) → count_byte c g.puzzle ≡ n → Returns (length g.players) (sold c cost g)
    by_count zero e =
        let (o, g', r, v', len) =
          missed_with_valid false (length after.players) (lose_turn_of after)
            (lose_turn_valid after there d) in
        (o, g', rw (e, sold) r, v', len ∙ same)
    by_count (suc n) e = (
      record (outcome hit) { count = suc n },
      after,
      rw (e, sold) refl,
      record { turn_in_range = there; once = d; at_stake = v.at_stake; staked = v.staked },
      same,
    )

pub buy_known_valid :
    (o : Option ℕ) (cost : ℕ) (g : Game)
    → IsValid g
    → Returns (length g.players) (buy_known o cost g)
unfolding buy_known current
buy_known_valid none cost g v = (outcome invalid, g, refl, v, refl)
buy_known_valid (some c) cost g v = elim (Bool-cases (contains c g.guessed)) [
  | inl old ↦ rw old (outcome invalid, g, refl, v, refl)
  | inr new ↦
      let (p, there) = get_elem?-lt g.players g.turn v.turn_in_range in
      rw new (
        rw (there, buy_known)
          (elim (Bool-cases (ltb p.money cost)) [
            | inl poor ↦ rw poor (outcome broke, g, refl, v, refl)
            | inr rich ↦ rw rich (sold_valid c cost g v new)
          ]))
]
