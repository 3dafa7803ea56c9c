-- ===== src/Flood.antt =====
-- internal/irc/flood/flood.go: the outbound queue. Times are nanoseconds.
pub mod Valid
pub mod Serve
pub mod Fair
mod Tests
use mathlib.Core.Option
use botje.Prelude.{
  ℕ, zero, suc, ◌+◌, ◌-◌, ◌*◌, ◌/◌, Text, codes, Bool, true, false, ◌&&◌, Option, none, some, List,
  [], ◌∷◌, ◌++◌, Map, lookup, insert, remove, values, is_some, or_else, length, ltb, ◌==◌, nat_eq,
  text_eq, has_prefix, drop, if◌then◌else◌,
}

abbrev pub generic_bucket : Text
generic_bucket = codes "#__IRC__#"

abbrev pub second : ℕ
second = 1000000000

abbrev pub max_wait : ℕ
max_wait = 3 * second

abbrev pub long_line_unit : ℕ
long_line_unit = 80

pub record Queue : Type 0 where
  pub high : List Text
  pub buckets : Map Text (List Text)
  pub order : List Text
  pub window : List ℕ

abbrev pub new : Queue
new = record { high = []; buckets = []; order = []; window = [] }

-- `.+?` behind its first character: as short as ` :` allows, and on one line.
shortest : Text → Option Text
shortest [] = none
shortest (c ∷ cs) =
    if has_prefix (codes " :") (c ∷ cs)
    then some []
    else if c == b'\n'
    then none
    else Option.map (λ m. c ∷ m) (shortest cs)

target_of : Text → Option Text
target_of [] = none
target_of (c ∷ cs) = if c == b'\n' then none else Option.map (λ m. c ∷ m) (shortest cs)

-- The submatch of `^PRIVMSG (.+?) :`.
pub privmsg_target : Text → Option Text
unfolding shortest target_of
privmsg_target line = if has_prefix (codes "PRIVMSG ") line then target_of (drop 8 line) else none

pub bucket_of : Text → Text
bucket_of line = or_else (privmsg_target line) generic_bucket

-- `append(q.buckets[bucket], line)`, where a missing bucket reads as nil.
push_to : Text → Text → Queue → Queue
push_to bucket line q = record q {
  order = if is_some (lookup bucket q.buckets) then q.order else q.order ++ bucket ∷ [];
  buckets = insert bucket (or_else (lookup bucket q.buckets) [] ++ line ∷ []) q.buckets;
}

pub push : Text → Queue → Queue
unfolding push_to
push line q = push_to (bucket_of line) line q

pub push_high : Text → Queue → Queue
push_high line q = record q { high = q.high ++ line ∷ [] }

-- `none` is the panic of an index out of range.
pub pop_bucket : Text → List Text → Option (List Text) → Queue → Option (Text × Queue)
pop_bucket bucket rest none q = none
pop_bucket bucket rest (some []) q = none
pop_bucket bucket rest (some (line ∷ [])) q =
    some (line, record q { order = rest; buckets = remove bucket q.buckets })
pop_bucket bucket rest (some (line ∷ next ∷ lines)) q = some (
  line,
  record q { order = rest ++ bucket ∷ []; buckets = insert bucket (next ∷ lines) q.buckets },
)

pop_order : List Text → Queue → Option (Text × Queue)
pop_order [] q = none
pop_order (bucket ∷ rest) q = pop_bucket bucket rest (lookup bucket q.buckets) q

pub pop_round_robin : Queue → Option (Text × Queue)
unfolding pop_order pop_bucket
pop_round_robin q = pop_order q.order q

-- `Truncate(time.Second)`; the subtraction stops at 0 where the source's is negative, and the
-- source tests only for what is positive.
pub wait_of : ℕ → ℕ → ℕ → ℕ
wait_of oldest count now = (oldest + count * second - now) / second * second

-- The delay, and the window that is left.
pub delay_in : List ℕ → ℕ → ℕ × List ℕ
delay_in [] now = (0, [])
delay_in (t ∷ ts) now =
    let wait = wait_of t (suc (length ts)) now in
    if ltb max_wait wait then (max_wait, t ∷ ts) else if ltb 0 wait then (wait, t ∷ ts) else (0, ts)

pub delay : Queue → ℕ → ℕ × Queue
unfolding delay_in wait_of
delay q now = let (wait, window) = delay_in q.window now in (wait, record q { window = window })

-- `int(float64(n)/80 + 0.5)` for a line over 80 bytes: n / 80 to the nearest, halves up.
pub extra_events : ℕ → ℕ
extra_events n = if ltb long_line_unit n then (n + 40) / 80 else 0

-- One reading of the clock for each event.
stamps : ℕ → (ℕ → ℕ) → List ℕ
stamps zero clock = []
stamps (suc n) clock = clock 0 ∷ stamps n (λ i. clock (suc i))

pub record_cost : Text → (ℕ → ℕ) → Queue → Queue
unfolding stamps
record_cost line clock q = record q {
  window = q.window ++ stamps (suc (extra_events (length line))) clock;
}

pub data Outcome : Type 0 where
  empty : Outcome
  limited : ℕ → Outcome
  sent : Text → Outcome

take_line : Queue → Option (Text × Queue)
take_line q = elim q.high [
  | [] ↦ pop_round_robin q
  | line ∷ rest ↦ some (line, record q { high = rest })
]

send_line : (ℕ → ℕ) → Option (Text × Queue) → Option (Outcome × Queue)
send_line clock none = none
send_line clock (some (line, q)) = some (sent line, record_cost line clock q)

is_empty : Queue → Bool
is_empty q = length q.high == 0 && length q.order == 0

-- `clock 0` is what `delay` reads, `clock (1 + i)` what the i-th recorded event does.
pub next : (ℕ → ℕ) → Queue → Option (Outcome × Queue)
unfolding is_empty take_line send_line
next clock q =
    if is_empty q
    then some (empty, q)
    else (let (wait, q') = delay q (clock 0) in
        if ltb 0 wait
        then some (limited wait, q')
        else send_line (λ i. clock (suc i)) (take_line q'))

sum_lengths : Map Text (List Text) → ℕ
sum_lengths [] = 0
sum_lengths ((b, ls) ∷ m) = length ls + sum_lengths m

-- `Len`
pub len : Queue → ℕ
unfolding sum_lengths
len q = length q.high + sum_lengths q.buckets

-- `Depths`
pub depths : Map Text (List Text) → Map Text ℕ
depths [] = []
depths ((b, ls) ∷ m) =
    let rest = depths m in if ltb 0 (length ls) then (b, length ls) ∷ rest else rest
