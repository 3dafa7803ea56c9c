-- ===== src/Pager.antt =====
-- internal/irc/pager/pager.go: replies that are too long wait for `!more`. The scheduler is the one
-- of internal/sched, a callback is the key of the stash that it deletes. Times are nanoseconds; the
-- line budget is a natural number. Channels are valid UTF-8, as LineBuffer leaves them.
pub mod Pages
pub mod Owned
pub mod Timers
pub mod Expiry
mod Tests
use botje.Prelude.{
  ℕ, zero, suc, ◌+◌, ◌-◌, ◌*◌, Text, codes, Map, Eq, Bool, true, false, not, ◌&&◌, ◌||◌, List, [],
  ◌∷◌, ◌++◌, Option, none, some, lookup, insert, remove, length, take, drop, delete_if, leb, ltb,
  min, trim_space, decimal, join, sort_texts, keys, ◌==◌, nat_eq, text_eq, text_beq_iff, arith, ◌≡◌,
  ◌↔◌, if◌then◌else◌,
}
use botje.Event.{Event}
use botje.Sched.{Timer, Sched, after, unschedule, run_due}

abbrev pub expiry : ℕ
expiry = 600 * 1000000000

pub record Key : Type 0 where
  pub channel : Text
  pub nick : Text
  pub command : Text

abbrev pub key_beq : Key → Key → Bool
key_beq a b = a.channel == b.channel && a.nick == b.nick && a.command == b.command

pub key_beq_iff : (a b : Key) → (key_beq a b ≡ true) ↔ (a ≡ b)
key_beq_iff a b = ground (
  arith,
  text_beq_iff a.channel b.channel,
  text_beq_iff a.nick b.nick,
  text_beq_iff a.command b.command,
)

instance abbrev pub key_eq : Eq Key
key_eq = record { beq = key_beq; beq_iff = key_beq_iff }

pub record Stash : Type 0 where
  pub msgs : List Text
  pub displayed : ℕ
  pub timer : ℕ

pub record Pager : Type 0 where
  pub sched : Sched Key
  pub stashes : Map Key Stash

-- A line that is sent to a channel.
abbrev pub Sent : Type 0
Sent = Text × Text

-- `channelOf`
pub channel_of : Event → Text
channel_of ev = delete_if (λ c. c == b':' || c == b' ' || c == 9 || c == 13 || c == 10) ev.channel

onto_line : ℕ → List Text → List Text
onto_line c [] = (c ∷ []) ∷ []
onto_line c (l ∷ ls) = (c ∷ l) ∷ ls

-- `strings.SplitSeq(m, "\n")`
pub split_lines : Text → List Text
unfolding onto_line
split_lines [] = [] ∷ []
split_lines (c ∷ cs) = let rest = split_lines cs in if c == 10 then [] ∷ rest else onto_line c rest

pub is_blank : Text → Bool
is_blank l = length (trim_space l) == 0

pub lines_of : List Text → List Text
unfolding split_lines is_blank
lines_of [] = []
lines_of (m ∷ ms) = delete_if is_blank (split_lines m) ++ lines_of ms

more_left : ℕ → Text
more_left n = codes " {W}(+" ++ (decimal n ++ codes ")")

-- The lines of one burst of `room`, the last marked if others follow, and what follows.
pub page : ℕ → List Text → List Text × List Text
unfolding more_left
page zero ls = ([], ls)
page (suc room) [] = ([], [])
page (suc room) (l ∷ ls) =
    let (sent, rest) = page room ls in
    let line = if room == 0 && ltb 0 (length ls) then l ++ more_left (length ls) else l in
    (line ∷ sent, rest)

abbrev pub to_channel : Text → List Text → List Sent
to_channel channel [] = []
to_channel channel (l ∷ ls) = (channel, l) ∷ to_channel channel ls

-- `drop`
pub drop_stash : Key → Pager → Pager
drop_stash key p = elim (lookup key p.stashes) [
  | none ↦ p
  | some st ↦ record { sched = (unschedule st.timer p.sched).1; stashes = remove key p.stashes }
]

-- A new stash, with its expiry.
pub stash_lines : ℕ → ℕ → Key → List Text → Pager → Pager
stash_lines now max key lines p =
    let (tag, sched) = after now expiry key p.sched in
    record {
      sched = sched;
      stashes = insert key (record { msgs = lines; displayed = max; timer = tag }) p.stashes;
    }

abbrev is_empty : Text → Bool
is_empty [] = true
is_empty (c ∷ cs) = false

pub reply : ℕ → ℕ → Key → List Text → Pager → Pager × List Sent
unfolding page drop_stash stash_lines
reply now max key lines p =
    let (sent, rest) = page max lines in
    let dropped = drop_stash key p in
    (
      if ltb max (length lines) then stash_lines now max key (sent ++ rest) dropped else dropped,
      to_channel key.channel sent,
    )

-- `EventMsg`
pub event_msg : ℕ → ℕ → Event → Text → List Text → Pager → Pager × List Sent
unfolding channel_of lines_of reply
event_msg now max ev command msgs p =
    let channel = channel_of ev in
    let key : Key = record { channel = channel; nick = ev.sender.nick; command = command } in
    if is_empty channel then (p, []) else reply now max key (lines_of msgs) p

commands_in : Text → Text → Map Key Stash → List Text
commands_in channel nick [] = []
commands_in channel nick ((k, st) ∷ m) =
    let rest = commands_in channel nick m in
    if k.channel == channel && k.nick == nick then k.command ∷ rest else rest

-- `pendingCommands`
pub pending_commands : Text → Text → Pager → List Text
unfolding commands_in
pending_commands channel nick p = sort_texts (commands_in channel nick p.stashes)

pub next_page : ℕ → Key → Stash → Pager → Pager × List Sent
unfolding page drop_stash
next_page max key st p =
    let (sent, rest) = page max (drop st.displayed st.msgs) in
    let end = st.displayed + max in
    let paged = record st { msgs = take st.displayed st.msgs ++ (sent ++ rest); displayed = end } in
    (
      if ltb end (length st.msgs)
          then record p { stashes = insert key paged p.stashes }
          else drop_stash key p,
      to_channel key.channel sent,
    )

pub more_of : ℕ → Key → Pager → Pager × List Sent
unfolding next_page
more_of max key p = elim (lookup key p.stashes) [
  | none ↦ (
    p,
    (
      key.channel,
      codes "There is nothing (more) to display for " ++ (key.command ++ codes " for you."),
    )
        ∷ [],
  )
  | some st ↦ next_page max key st p
]

pub choose : ℕ → Text → Text → List Text → Text → Pager → Pager × List Sent
unfolding more_of
choose max channel nick [] requested p =
    (p, (channel, codes "There is nothing more to display for you.") ∷ [])
choose max channel nick (c ∷ []) [] p =
    more_of max (record { channel = channel; nick = nick; command = c }) p
choose max channel nick (c ∷ d ∷ cs) [] p = (
  p,
  (
    channel,
    codes "Multiple commands are waiting for you to display more. Use !more "
        ++ (join (codes "|") (c ∷ d ∷ cs)
            ++ codes " (choose one) to specify for which one you want to see more!"),
  )
      ∷ [],
)
choose max channel nick (c ∷ cs) (r ∷ rs) p =
    more_of max (record { channel = channel; nick = nick; command = r ∷ rs }) p

-- `More`
pub more : ℕ → Event → Text → Pager → Pager × List Sent
unfolding channel_of pending_commands choose
more max ev requested p =
    let channel = channel_of ev in
    let nick = ev.sender.nick in
    if is_empty channel
    then (p, [])
    else choose max channel nick (pending_commands channel nick p) requested p

pub expire : Option Key → Map Key Stash → Map Key Stash
expire none m = m
expire (some key) m = remove key m

pub expire_all : List (Timer Key) → Map Key Stash → Map Key Stash
unfolding expire
expire_all [] m = m
expire_all (t ∷ ts) m = expire_all ts (expire t.fn m)

-- `RunDue` of the scheduler, with the callbacks that delete the stashes.
pub tick : ℕ → Pager → Pager
unfolding expire_all
tick now p =
    let (due, sched) = run_due now p.sched in
    record { sched = sched; stashes = expire_all due p.stashes }
