-- ===== src/Rvf/Tests.antt =====
-- modules/rvf/game.go: a game of two players, and the theorems at it.
use mathlib.Core.List.{flatten}
use botje.Prelude.{
  ◌+◌, Text, codes, text_beq, true, false, [], ◌∷◌, some, length, distinct, contains, runes,
  rune_width, trim_space, pieces, is_space_rune, nat_eq, arith, ◌≡◌, refl, insert_by, sort_by,
}
use botje.Rvf.{
  Game, Player, action, letter, outcome, hit, count_byte, change_at, new_game, call_letter,
  drop_current, wrong_guesses, board, is_current, is_player,
}
use botje.Rvf.Moves.{IsValid}
use botje.Rvf.Play.{calls, play, play-IsValid}
use botje.Rvf.Money.{total, call_letter-total}

abbrev same_text : Text → Text
same_text t = t

abbrev ann : Player
ann = record { nick = codes "ann"; money = 100; joker = false; missed = 0 }

abbrev game : Game
game = record {
  lang = codes "en";
  category = codes "food";
  puzzle = codes "RED HERRING";
  guessed = b'X' ∷ b'E' ∷ [];
  players = ann ∷ record ann { nick = codes "bob"; joker = true } ∷ [];
  turn = 0;
  state = letter;
  pending = 50;
  query = false;
  done = false;
}

new_game-players :
    length (new_game same_text [] [] (codes "A B") (codes "a" ∷ codes "b" ∷ [])).players ≡ 2
unfolding new_game
new_game-players = refl

is_current-ann : is_current text_beq (codes "ann") game ≡ some true
unfolding is_current text_beq
is_current-ann = refl

is_player-bob : is_player text_beq (codes "bob") game ≡ true
unfolding is_player text_beq
is_player-bob = refl

wrong_guesses-game : wrong_guesses game ≡ b'X' ∷ []
unfolding wrong_guesses sort_by insert_by
wrong_guesses-game = refl

board-short : board (record game { puzzle = codes "E-R" }) ≡ b'E' ∷ b'-' ∷ 0xe2 ∷ 0x96 ∷ 0x91 ∷ []
unfolding board runes rune_width contains flatten
board-short = refl

drop_current-game :
    (g : Game) × (drop_current game ≡ some (codes "ann", g)) × (length g.players ≡ 1)
unfolding drop_current
drop_current-game = (_, refl, refl)

game-IsValid : IsValid game
game-IsValid = record {
  turn_in_range = omega arith;
  once = unfold distinct contains in refl;
  at_stake = λ e. absurd (cc);
  staked = λ e. omega arith;
}

play-IsValid_example :
    (g : Game) × (play same_text (calls (codes "r")) game ≡ some g)
    × IsValid g
    × (length g.players ≡ length game.players)
play-IsValid_example = play-IsValid same_text (calls (codes "r")) game game-IsValid tt

abbrev after_r : Game
after_r = record game {
  guessed = b'R' ∷ b'X' ∷ b'E' ∷ [];
  players = record ann { money = 250 } ∷ record ann { nick = codes "bob"; joker = true } ∷ [];
  state = action;
  pending = 0;
}

called_r :
    call_letter same_text (codes " R") game
    ≡ some (record (outcome hit) { count = 3; amount = 150 }, after_r)
unfolding call_letter trim_space pieces rune_width is_space_rune contains flatten count_byte
    change_at
called_r = refl

call_letter-total_example : total after_r.players ≡ total game.players + 150
call_letter-total_example =
    call_letter-total same_text (codes " R") game after_r
      (record (outcome hit) { count = 3; amount = 150 }) called_r
