-- ===== src/Rvf.antt =====
-- modules/rvf/game.go: one game of the wheel of fortune. `upper` stands for `strings.ToUpper`,
-- `fold` for `strings.EqualFold`. Money, costs and die rolls are natural numbers. A guessed letter
-- is its byte. `none` is a panic: a turn out of range, or no player at all.
pub mod Moves
pub mod Play
pub mod Money
mod Tests
use mathlib.Core.List.{flatten}
use botje.Prelude.{
  ℕ, zero, suc, ◌+◌, ◌-◌, ◌*◌, ◌%◌, Text, codes, Bool, true, false, not, ◌&&◌, ◌||◌, List, [], ◌∷◌,
  ◌++◌, map, Option, none, some, length, take, drop, get_elem?, contains, leb, ltb, ◌==◌, nat_eq,
  text_eq, runes, trim_space, sort_by, delete_if, if◌then◌else◌,
}

pub data SegmentKind : Type 0 where
  money bankrupt lose_turn joker : SegmentKind

pub record Segment : Type 0 where
  pub kind : SegmentKind
  pub amount : ℕ

abbrev paying : ℕ → Segment
paying n = record { kind = money; amount = n }

abbrev special : SegmentKind → Segment
special k = record { kind = k; amount = 0 }

-- The amounts of the first 21 segments.
abbrev amounts : List ℕ
amounts =
    50 ∷ 150 ∷ 200 ∷ 200 ∷ 200 ∷ 300 ∷ 350 ∷ 400 ∷ 400 ∷ 400 ∷ 450 ∷ 450 ∷ 550 ∷ 600 ∷ 600 ∷ 600
    ∷ 700 ∷ 750 ∷ 800 ∷ 800 ∷ 1000 ∷ []

abbrev pub wheel : List Segment
wheel = map paying amounts ++ special bankrupt ∷ special lose_turn ∷ special joker ∷ []

pub data GameState : Type 0 where
  action letter : GameState

pub data OutcomeKind : Type 0 where
  hit miss invalid broke : OutcomeKind

pub record Outcome : Type 0 where
  pub kind : OutcomeKind
  pub count : ℕ
  pub amount : ℕ
  pub dup : Bool
  pub joker_saved : Bool

pub record SpinFx : Type 0 where
  pub joker_saved : Bool
  pub lost : ℕ

pub record Player : Type 0 where
  pub nick : Text
  pub money : ℕ
  pub joker : Bool
  pub missed : ℕ

pub record Game : Type 0 where
  pub lang : Text
  pub category : Text
  pub puzzle : Text
  pub guessed : List ℕ
  pub players : List Player
  pub turn : ℕ
  pub state : GameState
  pub pending : ℕ
  pub query : Bool
  pub done : Bool

abbrev new_player : Text → Player
new_player nick = record { nick = nick; money = 0; joker = false; missed = 0 }

-- `NewGame`
pub new_game : (Text → Text) → Text → Text → Text → List Text → Game
new_game upper lang category puzzle nicks = record {
  lang = lang;
  category = category;
  puzzle = upper puzzle;
  guessed = [];
  players = map new_player nicks;
  turn = 0;
  state = action;
  pending = 0;
  query = false;
  done = false;
}

-- `Current`
pub current : Game → Option Player
current g = get_elem? g.players g.turn

pub change_at : ℕ → (Player → Player) → List Player → List Player
change_at i f [] = []
change_at zero f (p ∷ ps) = f p ∷ ps
change_at (suc i) f (p ∷ ps) = p ∷ change_at i f ps

abbrev pub change_current : (Player → Player) → Game → Game
change_current f g = record g { players = change_at g.turn f g.players }

module _ (fold : Text → Text → Bool) where
  -- `IsCurrent`
  pub is_current : Text → Game → Option Bool
  unfolding current
  is_current nick g = elim (current g) [ none ↦ none | some p ↦ some (fold p.nick nick) ]

  any_player : Text → List Player → Bool
  any_player nick [] = false
  any_player nick (p ∷ ps) = fold p.nick nick || any_player nick ps

  -- `IsPlayer`
  pub is_player : Text → Game → Bool
  unfolding any_player
  is_player nick g = any_player nick g.players

-- `advance`: with no player, the remainder panics.
pub advance : Game → Option Game
advance g = elim g.players [
  | [] ↦ none
  | p ∷ ps ↦ some (record g { turn = (g.turn + 1) % length g.players; state = action; pending = 0 })
]

no_joker : Player → Player
no_joker p = record p { joker = false }

lose_with : Player → Game → Option (Bool × Game)
unfolding no_joker
lose_with p g =
    if p.joker
    then some (true, record (change_current no_joker g) { state = action; pending = 0 })
    else elim (advance g) [ none ↦ none | some g' ↦ some (false, g') ]

-- `loseTurn`
pub lose_turn_of : Game → Option (Bool × Game)
unfolding current advance lose_with
lose_turn_of g = elim (current g) [ none ↦ none | some p ↦ lose_with p g ]

bankrupt_all : Player → Player
bankrupt_all p = record p { money = 0 }

give_joker : Player → Player
give_joker p = record p { joker = true }

pub with_lost : Segment → ℕ → Option (Bool × Game) → Option (Segment × SpinFx × Game)
with_lost seg lost none = none
with_lost seg lost (some (saved, g)) = some (seg, record { joker_saved = saved; lost = lost }, g)

spin_on : Segment → Game → Option (Segment × SpinFx × Game)
unfolding current bankrupt_all give_joker with_lost lose_turn_of
spin_on seg g = elim seg.kind [
  | money ↦ some (
    seg,
    record { joker_saved = false; lost = 0 },
    record g { state = letter; pending = seg.amount },
  )
  | bankrupt ↦ elim (current g) [
    | none ↦ none
    | some p ↦ with_lost seg p.money (lose_turn_of (change_current bankrupt_all g))
  ]
  | lose_turn ↦ with_lost seg 0 (lose_turn_of g)
  | joker ↦ elim (current g) [
    | none ↦ none
    | some p ↦ some (
      seg,
      record { joker_saved = false; lost = 0 },
      record (change_current give_joker g) { state = action },
    )
  ]
]

-- `Spin`
pub spin : ℕ → Game → Option (Segment × SpinFx × Game)
unfolding spin_on
spin roll g = elim (get_elem? wheel (roll % length wheel)) [
  | none ↦ none
  | some seg ↦ spin_on seg g
]

pub is_capital : ℕ → Bool
is_capital c = leb b'A' c && leb c b'Z'

pub is_vowel : ℕ → Bool
is_vowel c = c == b'A' || c == b'E' || c == b'I' || c == b'O' || c == b'U'

-- `count`: `strings.Count` of a text of one byte.
pub count_byte : ℕ → Text → ℕ
count_byte c [] = 0
count_byte c (d ∷ ds) = if d == c then suc (count_byte c ds) else count_byte c ds

pub consonant : Text → Option ℕ
unfolding is_capital is_vowel
consonant (c ∷ []) = if is_capital c && not (is_vowel c) then some c else none
consonant _ = none

pub vowel : Text → Option ℕ
unfolding is_vowel
vowel (c ∷ []) = if is_vowel c then some c else none
vowel _ = none

abbrev pub outcome : OutcomeKind → Outcome
outcome k = record { kind = k; count = 0; amount = 0; dup = false; joker_saved = false }

missed_with : Bool → Option (Bool × Game) → Option (Outcome × Game)
missed_with dup none = none
missed_with dup (some (saved, g)) =
    some (record (outcome miss) { dup = dup; joker_saved = saved }, g)

earn : ℕ → Player → Player
earn n p = record p { money = p.money + n }

pay : ℕ → Player → Player
pay n p = record p { money = p.money - n }

-- A consonant that was not called before, and is now marked.
judge : ℕ → Game → Option (Outcome × Game)
unfolding missed_with lose_turn_of current earn
judge c g = elim (count_byte c g.puzzle) [
  | zero ↦ missed_with false (lose_turn_of g)
  | suc n ↦ elim (current g) [
    | none ↦ none
    | some p ↦
        let won = g.pending * suc n in
        some (
          record (outcome hit) { count = suc n; amount = won },
          record (change_current (earn won) g) { state = action; pending = 0 },
        )
  ]
]

mark : ℕ → Game → Game
mark c g = record g { guessed = c ∷ g.guessed }

pub call_known : Option ℕ → Game → Option (Outcome × Game)
unfolding judge mark missed_with lose_turn_of
call_known none g = some (outcome invalid, g)
call_known (some c) g =
    if contains c g.guessed then missed_with true (lose_turn_of g) else judge c (mark c g)

-- A vowel that the player can pay for.
sold : ℕ → ℕ → Game → Option (Outcome × Game)
unfolding missed_with lose_turn_of mark pay
sold c cost g =
    let g' = mark c (change_current (pay cost) g) in
    elim (count_byte c g.puzzle) [
      | zero ↦ missed_with false (lose_turn_of g')
      | suc n ↦ some (record (outcome hit) { count = suc n }, g')
    ]

pub buy_known : Option ℕ → ℕ → Game → Option (Outcome × Game)
unfolding sold current
buy_known none cost g = some (outcome invalid, g)
buy_known (some c) cost g =
    if contains c g.guessed then some (outcome invalid, g) else elim (current g) [
      | none ↦ none
      | some p ↦ if ltb p.money cost then some (outcome broke, g) else sold c cost g
    ]

spaced : Bool → List Text → Text
spaced space [] = []
spaced space ((c ∷ []) ∷ rs) =
    let word = c ∷ spaced false rs in
    let gap = spaced true rs in if is_capital c then word else (if space then gap else b' ' ∷ gap)
spaced space (r ∷ rs) = let gap = spaced true rs in if space then gap else b' ' ∷ gap

module _ (upper : Text → Text) where
  -- `CallLetter`
  pub call_letter : Text → Game → Option (Outcome × Game)
  unfolding call_known consonant
  call_letter text g = call_known (consonant (upper (trim_space text))) g

  -- `BuyVowel`
  pub buy_vowel : Text → ℕ → Game → Option (Outcome × Game)
  unfolding buy_known vowel
  buy_vowel text cost g = buy_known (vowel (upper (trim_space text))) cost g

  -- `normalize`
  pub normalize : Text → Text
  unfolding spaced
  normalize s = trim_space (spaced true (runes (upper s)))

  -- `Solve`
  pub solve : Text → Game → Option (Bool × Game)
  unfolding normalize advance
  solve attempt g =
      if normalize attempt == normalize g.puzzle
      then some (true, record g { done = true })
      else elim (advance g) [ none ↦ none | some g' ↦ some (false, g') ]

-- `Pass`
pub pass : Game → Option Game
unfolding advance
pass g = advance g

turn_in : ℕ → List Player → ℕ
turn_in t [] = 0
turn_in t (p ∷ ps) = t % suc (length ps)

-- `DropCurrent`
pub drop_current : Game → Option (Text × Game)
unfolding current turn_in
drop_current g = elim (current g) [
  | none ↦ none
  | some p ↦
      let left = take g.turn g.players ++ drop (suc g.turn) g.players in
      some (
        p.nick,
        record g { players = left; turn = turn_in g.turn left; state = action; pending = 0 },
      )
]

abbrev letter_order : ℕ → ℕ → Bool
letter_order x y = ltb y x

-- `WrongGuesses`
pub wrong_guesses : Game → List ℕ
unfolding count_byte
wrong_guesses g = sort_by letter_order (delete_if (λ c. ltb 0 (count_byte c g.puzzle)) g.guessed)

-- `░`
abbrev mask : Text
mask = 0xe2 ∷ 0x96 ∷ 0x91 ∷ []

pub shown : List ℕ → Text → Text
unfolding is_capital
shown guessed (c ∷ []) = if is_capital c && not (contains c guessed) then mask else c ∷ []
shown guessed r = r

-- `Board`
pub board : Game → Text
unfolding shown
board g = flatten (map (shown g.guessed) (runes g.puzzle))
