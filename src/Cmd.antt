-- ===== src/Cmd.antt =====
-- internal/irc/cmd/cmd.go: the `!` command registry. A handler is a function from what it is given
-- to its answer; what it does beyond that is the list of calls. Handlers that register or
-- unregister while a dispatch runs are not modelled.
pub mod Levenshtein
pub mod Dispatch
pub mod Defaults
mod Tests
use mathlib.Core.Option
use botje.Prelude.Int.{ℤ, ltb_ℤ}
use botje.Prelude.{
  ℕ, zero, suc, ◌+◌, Text, codes, Map, Bool, true, false, not, ◌&&◌, ◌||◌, List, [], ◌∷◌, ◌++◌, map,
  Option, none, some, lookup, insert, remove, keys, is_some, is_space, is_digit, is_letter, span,
  trim_space, join, sort_by, sort_texts, delete_if, contains, length, leb, ltb, or_else,
  if◌then◌else◌, ◌==◌, text_eq, nat_eq, get_elem?,
}
use botje.Event.{Event}
use botje.Cmd.Levenshtein.{levenshtein}

pub record Data : Type 0 where
  pub command : Text
  pub text : Text
  pub event : Event

-- What a handler comes to: its return value, or a panic.
pub data Answer : Type 0 where
  returned : Bool → Answer
  panicked : Answer

abbrev pub Handler : Type 0
Handler = Data → Answer

pub record Registration : Type 0 where
  pub owner : Text
  pub fn : Handler

pub record DefaultCmd : Type 0 where
  pub owner : Text
  pub priority : ℤ
  pub cont : Bool
  pub fn : Handler
  pub dead : Bool

pub record Registry : Type 0 where
  pub has_reply : Bool
  pub commands : Map Text (List Registration)
  pub defaults : List DefaultCmd

-- What a dispatch does, in order.
pub data Act : Type 0 where
  called : Text → Data → Act
  replied : Text → Act

-- The registration of the module gets the handler, or a new one goes behind the others.
pub set_handler : Text → Handler → List Registration → List Registration
set_handler owner h [] = record { owner = owner; fn = h } ∷ []
set_handler owner h (r ∷ rs) =
    let later = r ∷ set_handler owner h rs in
    if r.owner == owner then record r { fn = h } ∷ rs else later

abbrev pub registered : Text → Registry → List Registration
registered word r = or_else (lookup word r.commands) []

-- `Register`
pub register : Text → Text → Handler → Registry → Registry
unfolding set_handler
register owner word h r = record r {
  commands = insert word (set_handler owner h (registered word r)) r.commands;
}

-- `r.defaults[i].priority > r.defaults[j].priority`: `x` goes behind `y` if `y` has the higher one.
pub behind : DefaultCmd → DefaultCmd → Bool
behind x y = ltb_ℤ x.priority y.priority

-- `RegisterDefault`
pub register_default : Text → ℤ → Bool → Handler → Registry → Registry
unfolding behind
register_default owner priority cont h r = record r {
  defaults = sort_by behind (
      r.defaults
      ++ record { owner = owner; priority = priority; cont = cont; fn = h; dead = false } ∷ []);
}

-- A word with no registrations is dropped.
put_or_drop : Text → List Registration → Map Text (List Registration) → Map Text (List Registration)
put_or_drop word [] m = remove word m
put_or_drop word (r ∷ rs) m = insert word (r ∷ rs) m

drop_owner : Text → Map Text (List Registration) → Map Text (List Registration)
drop_owner owner [] = []
drop_owner owner ((word, rs) ∷ m) = elim (delete_if (λ (r : Registration). r.owner == owner) rs) [
  | [] ↦ drop_owner owner m
  | r ∷ left ↦ (word, r ∷ left) ∷ drop_owner owner m
]

-- `UnregisterModule`
pub unregister_module : Text → Registry → Registry
unfolding drop_owner
unregister_module owner r = record r {
  commands = drop_owner owner r.commands;
  defaults = delete_if (λ (d : DefaultCmd). d.owner == owner) r.defaults;
}

-- `Has`
pub has : Text → Registry → Bool
has word r = is_some (lookup word r.commands)

-- `Commands`
pub commands_of : Registry → List Text
commands_of r = sort_texts (keys r.commands)

-- `removeCommand`
pub remove_command : Text → Text → Registry → Registry
unfolding put_or_drop
remove_command word owner r = record r {
  commands =
      put_or_drop word (delete_if (λ (x : Registration). x.owner == owner) (registered word r))
        r.commands;
}

-- `\w`
is_word : ℕ → Bool
is_word c = is_digit c || is_letter c || c == b'_'

text_of : Text → Option Text
text_of [] = some []
text_of (c ∷ cs) =
    let (blanks, rest) = span is_space (c ∷ cs) in
    if is_space c && not (contains 10 rest) then some rest else none

with_word : Text → Text → Option (Text × Text)
with_word [] rest = none
with_word (c ∷ w) rest = Option.map (λ t. (c ∷ w, t)) (text_of rest)

-- `cmdRe`: the word and what follows it.
pub match_cmd : Text → Option (Text × Text)
unfolding is_word text_of with_word
match_cmd [] = none
match_cmd (c ∷ cs) =
    let (word, rest) = span is_word cs in if c == b'!' then with_word word rest else none

-- All handlers of the word run; the calls, and the modules whose handler panicked.
pub run_all : Data → List Registration → List Act × List Text
run_all d [] = ([], [])
run_all d (r ∷ rs) =
    let (acts, dead) = run_all d rs in
    (called r.owner d ∷ acts, elim (r.fn d) [ returned b ↦ dead | panicked ↦ r.owner ∷ dead ])

remove_all : Text → List Text → Registry → Registry
remove_all word [] r = r
remove_all word (m ∷ ms) r = remove_all word ms (remove_command word m r)

pub same : Bool → Bool → Bool
same true b = b
same false b = not b

-- The loop of `runDefaults` over what is left of the list: the calls, whether the last call was
-- handled, and the list with the panicked ones marked.
pub run_group : Data → Bool → Bool → List DefaultCmd → List Act × Bool × List DefaultCmd
unfolding same
run_group d cont handled [] = ([], handled, [])
run_group d cont handled (dc ∷ ds) =
    let skipped = run_group d cont handled ds in
    let died = run_group d cont handled ds in
    let done_true = run_group d cont true ds in
    let done_false = run_group d cont false ds in
    if not (same cont dc.cont) || dc.dead
    then (skipped.0, skipped.1, dc ∷ skipped.2)
    else elim (dc.fn d) [
      | panicked ↦ (called dc.owner d ∷ died.0, died.1, record dc { dead = true } ∷ died.2)
      | returned true ↦
          if cont
          then (called dc.owner d ∷ done_true.0, done_true.1, dc ∷ done_true.2)
          else (called dc.owner d ∷ [], true, dc ∷ ds)
      | returned false ↦ (called dc.owner d ∷ done_false.0, done_false.1, dc ∷ done_false.2)
    ]

-- `runDefaults`
pub run_defaults : Data → Bool → Registry → List Act × Bool × Registry
unfolding run_group
run_defaults d cont r =
    let (acts, handled, ds) = run_group d cont false r.defaults in
    (acts, handled, record r { defaults = delete_if (λ (x : DefaultCmd). x.dead) ds })

-- The words of `annoy`.
abbrev annoy : List Text
annoy = codes "..derpdurpderp.." ∷ codes ";)" ∷ codes "?????" ∷ codes "Orrr.." ∷ codes "(:" ∷ []

pub max_dist : Text → ℕ
max_dist word = if leb (length word) 3 then 1 else 2

-- The words near enough, with their distances.
near : Text → List Text → List (ℕ × Text)
near word [] = []
near word (w ∷ ws) =
    let rest = near word ws in
    let d = levenshtein w word in if leb d (max_dist word) then (d, w) ∷ rest else rest

second_of : ℕ × Text → Text
second_of (d, w) = w

-- The words that `suggest` offers, the nearest first and ties in the order of the alphabet.
pub possible : Text → Registry → List Text
unfolding near max_dist commands_of second_of
possible word r = map second_of (sort_by (λ x y. ltb y.0 x.0) (near word (commands_of r)))

-- The reply, for the words offered; `dice n` is what `r.intn(n)` gives.
suggestion : (ℕ → ℕ) → List Text → Text
suggestion dice words =
    let any_of = if ltb 1 (length words) then codes " any of" else [] in
    let reply =
      codes "Maybe you meant"
      ++ (any_of ++ (codes ": {W}" ++ (join (codes "{/}, {W}") words ++ codes "{/}?"))) in
    if dice 6 == 1 then reply ++ (codes " " ++ or_else (get_elem? annoy (dice 5)) []) else reply

reply_to : (ℕ → ℕ) → Event → List Text → List Act
reply_to dice ev [] = []
reply_to dice ev (w ∷ ws) =
    replied (ev.sender.nick ++ (codes ": " ++ suggestion dice (w ∷ ws))) ∷ []

-- `suggest`
pub suggest : (ℕ → ℕ) → Event → Text → Registry → List Act
unfolding reply_to suggestion possible
suggest dice ev word r = if r.has_reply then reply_to dice ev (possible word r) else []

-- A registered word: all its handlers, and then the panicked ones are dropped.
pub handle_known : Event → Text → Text → List Registration → Registry → List Act × Registry
unfolding run_all remove_all
handle_known ev word rest regs r =
    let (acts, dead) =
      run_all (record { command = word; text = trim_space rest; event = ev }) regs in
    (acts, remove_all word dead r)

-- Any other word: the defaults that do not continue; if none of them handles it, the suggestion and
-- the defaults that do.
pub handle_unknown : (ℕ → ℕ) → Event → Text → Text → Registry → List Act × Registry
handle_unknown dice ev word rest r =
    let d : Data = record {
      command = [];
      text = trim_space (word ++ (codes " " ++ rest));
      event = ev;
    } in
    let (acts, handled, r') = run_defaults d false r in
    let more = run_defaults d true r' in
    if handled then (acts, r') else (acts ++ (suggest dice ev word r' ++ more.0), more.2)

-- `Handle`: whether the message was a command, what it did, and the registry after it.
pub handle : (ℕ → ℕ) → Event → Registry → Bool × List Act × Registry
unfolding match_cmd handle_known handle_unknown
handle dice ev r = elim (match_cmd ev.msg) [
  | none ↦ (false, [], r)
  | some (word, rest) ↦ elim (lookup word r.commands) [
    | some regs ↦ let (acts, r') = handle_known ev word rest regs r in (true, acts, r')
    | none ↦ let (acts, r') = handle_unknown dice ev word rest r in (true, acts, r')
  ]
]
