-- ===== src/Rvf/Play.antt =====
-- modules/rvf/game.go: a spin, and any move.
use botje.Prelude.{
  text_eq, trim_space, ℕ, zero, suc, ◌%◌, ◌<◌, Text, Bool, true, false, ◌&&◌, List, [], ◌∷◌, Option,
  none, some, length, get_elem?, ltb, ◌==◌, nat_eq, arith, ◌≡◌, refl, ◌∙◌, Bool-cases, inl, inr,
}
use botje.Rvf.{
  SegmentKind, normalize, consonant, vowel, Game, Player, action, letter, Segment, SpinFx, wheel,
  money, bankrupt, lose_turn, joker, spin_on, bankrupt_all, give_joker, current, change_current,
  lose_turn_of, spin, call_letter, buy_vowel, solve, pass,
}
use botje.Rvf.Moves.{
  IsValid, get_elem?-lt, length-change_at, passed, resting, advance-passed, passed-IsValid,
  lose_turn_valid, with_lost-IsValid, call_known_valid, buy_known_valid,
}

-- Every money segment pays something.
pays : Segment → Bool
pays seg = elim seg.kind [ money ↦ ltb 0 seg.amount | _ ↦ true ]

all_pay : List Segment → Bool
all_pay [] = true
all_pay (s ∷ ss) = pays s && all_pay ss

pays_at :
    (ss : List Segment) (i : ℕ)
    → all_pay ss ≡ true
    → i < length ss
    → (seg : Segment) × (get_elem? ss i ≡ some seg) × (pays seg ≡ true)
unfolding all_pay
pays_at [] i a h = absurd (omega arith)
pays_at (s ∷ ss) zero a h = (s, refl, ground arith)
pays_at (s ∷ ss) (suc i) a h = pays_at ss i (ground arith) (omega arith)

wheel_pays : all_pay wheel ≡ true
unfolding all_pay pays
wheel_pays = refl

pays_money : (seg : Segment) → seg.kind ≡ money → pays seg ≡ true → 0 < seg.amount
unfolding pays
pays_money seg e h = ground arith

abbrev Spun : Segment → Game → Type 0
Spun seg g =
    (fx : SpinFx) × (g' : Game) × (spin_on seg g ≡ some (seg, fx, g'))
    × IsValid g'
    × (length g'.players ≡ length g.players)

spin_on_valid :
    (seg : Segment) (g : Game) → IsValid g → pays seg ≡ true → g.state ≡ action → Spun seg g
unfolding spin_on current
spin_on_valid seg g v paid idle = by_kind seg.kind refl
  where
    at_turn : (p : Player) × (get_elem? g.players g.turn ≡ some p)
    at_turn = get_elem?-lt g.players g.turn v.turn_in_range

    broke_game : Game
    broke_game = change_current bankrupt_all g

    broke_same : length broke_game.players ≡ length g.players
    broke_same = length-change_at g.turn bankrupt_all g.players

    by_kind : (k : SegmentKind) → seg.kind ≡ k → Spun seg g
    by_kind money e = (
      record { joker_saved = false; lost = 0 },
      record g { state = letter; pending = seg.amount },
      simp (e, spin_on) refl,
      record {
        turn_in_range = v.turn_in_range;
        once = v.once;
        at_stake = λ z. absurd (cc);
        staked = λ z. pays_money seg e paid;
      },
      refl,
    )
    by_kind bankrupt e =
        let (fx, g', r, v', same) =
          with_lost-IsValid seg at_turn.0.money (length broke_game.players)
            (lose_turn_of broke_game)
            (lose_turn_valid broke_game (omega (arith, v.turn_in_range, broke_same)) v.once) in
        (fx, g', simp (e, spin_on) (rw (at_turn.1, spin_on) r), v', same ∙ broke_same)
    by_kind lose_turn e =
        let (fx, g', r, v', same) =
          with_lost-IsValid seg 0 (length g.players) (lose_turn_of g)
            (lose_turn_valid g v.turn_in_range v.once) in
        (fx, g', simp (e, spin_on) r, v', same)
    by_kind joker e =
        let len = length-change_at g.turn give_joker g.players in
        (
          record { joker_saved = false; lost = 0 },
          record (change_current give_joker g) { state = action },
          simp (e, spin_on) (rw (at_turn.1, spin_on) refl),
          resting (record (change_current give_joker g) { state = action })
              (omega (arith, v.turn_in_range, len)) v.once refl (v.at_stake idle),
          len,
        )

-- What a player may say when it is their turn. A spin is for a player who owes no letter.
pub data Move : Type 0 where
  spins : ℕ → Move
  calls : Text → Move
  buys : Text → ℕ → Move
  solves : Text → Move
  passes : Move

abbrev pub Legal : Move → Game → Type 0
Legal (spins roll) g = g.state ≡ action
Legal _ g = Unit

module _ (upper : Text → Text) where
  pub play : Move → Game → Option Game
  unfolding spin call_letter buy_vowel solve pass
  play (spins roll) g = elim (spin roll g) [ none ↦ none | some r ↦ some r.2 ]
  play (calls text) g = elim (call_letter upper text g) [ none ↦ none | some r ↦ some r.1 ]
  play (buys text cost) g = elim (buy_vowel upper text cost g) [ none ↦ none | some r ↦ some r.1 ]
  play (solves text) g = elim (solve upper text g) [ none ↦ none | some r ↦ some r.1 ]
  play passes g = pass g

  -- From a valid game every move returns, a spin where no letter is owed: the turn is never out of
  -- range and the number of players never a zero divisor. The game after it is valid and nobody has
  -- left.
  pub play-IsValid :
      (m : Move) (g : Game)
      → IsValid g
      → Legal m g
      → (g' : Game) × (play m g ≡ some g') × IsValid g' × (length g'.players ≡ length g.players)
  unfolding play spin call_letter buy_vowel solve pass
  play-IsValid (spins roll) g v legal =
      let (seg, there, paid) = pays_at wheel (roll % length wheel) wheel_pays (omega arith) in
      let (fx, g', r, v', same) = spin_on_valid seg g v paid legal in
      (g', rw (there, play) (rw (r, play) refl), v', same)
  play-IsValid (calls text) g v legal =
      let (o, g', r, v', same) = call_known_valid (consonant (upper (trim_space text))) g v in
      (g', rw (r, play) refl, v', same)
  play-IsValid (buys text cost) g v legal =
      let (o, g', r, v', same) = buy_known_valid (vowel (upper (trim_space text))) cost g v in
      (g', rw (r, play) refl, v', same)
  play-IsValid (solves text) g v legal =
      elim (Bool-cases (normalize upper text == normalize upper g.puzzle)) [
        | inl right ↦ (
          record g { done = true },
          rw (right, play) refl,
          record {
            turn_in_range = v.turn_in_range;
            once = v.once;
            at_stake = v.at_stake;
            staked = v.staked;
          },
          refl,
        )
        | inr wrong ↦ (
          passed g,
          rw (wrong, play) (rw (advance-passed g (omega (arith, v.turn_in_range)), play) refl),
          passed-IsValid g (omega (arith, v.turn_in_range)) v.once,
          refl,
        )
      ]
  play-IsValid passes g v legal = (
    passed g,
    advance-passed g (omega (arith, v.turn_in_range)),
    passed-IsValid g (omega (arith, v.turn_in_range)) v.once,
    refl,
  )
