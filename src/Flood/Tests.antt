-- ===== src/Flood/Tests.antt =====
-- internal/irc/flood/flood.go: runs of the queue, and the theorems at them.
use botje.Prelude.{
  ℕ, ◌*◌, Text, codes, text_eq, text_beq, ◌≡◌, refl, none, some, [], has_prefix, lookup, insert,
}
use botje.Flood.{Queue, new, push, bucket_of, privmsg_target, len, depths, second, extra_events}
use botje.Flood.Valid.{IsValid, new-IsValid, push-IsValid}
use botje.Flood.Serve.{Returns, next-Returns}
use botje.Flood.Fair.{Turn, Turn-served, pop_after}

abbrev line_a : Text
line_a = codes "PRIVMSG #a :one"

abbrev line_b : Text
line_b = codes "PRIVMSG #b :two"

abbrev two : Queue
two = push line_b (push line_a (push line_a new))

target_a : privmsg_target line_a ≡ some (codes "#a")
unfolding privmsg_target has_prefix
target_a = refl

no_target : privmsg_target (codes "JOIN #a") ≡ none
unfolding privmsg_target has_prefix
no_target = refl

two-IsValid : IsValid two
two-IsValid = push-IsValid line_b _ (push-IsValid line_a _ (push-IsValid line_a new new-IsValid))

abbrev clock : ℕ → ℕ
clock i = 7 * second

next-Returns_example : Returns clock two
next-Returns_example = next-Returns clock two two-IsValid

two-Turn : Turn two 1 (codes "#b") line_b
unfolding push privmsg_target bucket_of has_prefix lookup insert text_beq
two-Turn = record { place = refl; oldest = ([], refl) }

Turn-served_example : (after : Queue) × (pop_after 1 two ≡ some (line_b, after))
Turn-served_example = Turn-served (codes "#b") line_b two 1 two-IsValid two-Turn

push-IsValid_example : IsValid (push line_b two)
push-IsValid_example = push-IsValid line_b two two-IsValid

extra_events_halves : (extra_events 80 ≡ 0) × (extra_events 119 ≡ 1) × (extra_events 120 ≡ 2)
unfolding extra_events
extra_events_halves = (refl, refl, refl)

depths_two : lookup (codes "#a") (depths two.buckets) ≡ some 2
unfolding depths push privmsg_target bucket_of has_prefix lookup insert text_beq
depths_two = refl

len-two : len two ≡ 3
unfolding len push privmsg_target bucket_of has_prefix lookup insert text_beq
len-two = refl
