-- ===== src/Lastseen.antt =====
-- modules/lastseen/lastseen.go: who said what last, and where. `lower` stands for `strings.ToLower`,
-- `clock` for the time of day that `Format` writes for a number of seconds. Time spans are cut to
-- whole units exactly, where the code divides in floating point.
pub mod Heard
mod Tests
use botje.Prelude.{
  ℕ, zero, suc, ◌+◌, ◌-◌, ◌*◌, ◌/◌, Text, codes, Map, Bool, true, false, not, ◌&&◌, ◌||◌, List, [],
  ◌∷◌, ◌++◌, Option, none, some, lookup, insert, or_else, length, ltb, decimal, text_ltb,
  has_prefix, trim_space, ◌==◌, nat_eq, text_eq, if◌then◌else◌,
}
use botje.Event.{Event}

-- `time` in seconds.
pub record Act : Type 0 where
  pub msg : Text
  pub time : ℕ

abbrev pub Nicks : Type 0
Nicks = Map Text (Map Text Act)

pub record Lastseen : Type 0 where
  pub activity : Map Text Nicks
  pub msg_count : ℕ

abbrev pub save_interval : ℕ
save_interval = 100

-- What a nick did, by channel.
abbrev pub by_channel : Text → Text → Lastseen → Map Text Act
by_channel server nick m = or_else (lookup nick (or_else (lookup server m.activity) [])) []

abbrev pub act_in : Text → Text → Text → Lastseen → Option Act
act_in server nick channel m = lookup channel (by_channel server nick m)

-- The messages that count.
abbrev pub counts : Event → Bool
counts ev = not (ev.sender_me || length ev.msg == 0 || has_prefix (codes "!") ev.msg)

abbrev pub with_act : Text → Text → Text → Act → Map Text Nicks → Map Text Nicks
with_act server nick channel a activity =
    let nicks = or_else (lookup server activity) [] in
    let acts = or_else (lookup nick nicks) [] in
    insert server (insert nick (insert channel a acts) nicks) activity

module _ (lower : Text → Text) where
  -- `onPrivmsg`, and whether it saves; the time is in seconds.
  unfoldable pub on_privmsg : ℕ → Event → Lastseen → Lastseen × Bool
  on_privmsg now ev m =
      if counts ev
      then (let a : Act = record { msg = ev.msg; time = now } in
          let activity = with_act ev.server (lower ev.sender.nick) ev.channel a m.activity in
          let n = suc m.msg_count in
          if ltb n save_interval
          then (record { activity = activity; msg_count = n }, false)
          else (record { activity = activity; msg_count = 0 }, true))
      else (m, false)

-- The loop of `lastAct`: the later act, of two at one time that in the channel of the smaller name.
abbrev pub later_of : Text × Act → Option (Text × Act) → Text × Act
later_of (ch, a) none = (ch, a)
later_of (ch, a) (some (last, b)) =
    if ltb b.time a.time || a.time == b.time && text_ltb ch last then (ch, a) else (last, b)

unfoldable pub newest : Map Text Act → Option (Text × Act) → Option (Text × Act)
unfolding text_ltb
newest [] best = best
newest (entry ∷ acts) best = newest acts (some (later_of entry best))

abbrev pub minute : ℕ
minute = 60 * 1000000000

abbrev pub hour : ℕ
hour = 60 * minute

abbrev pub units : ℕ → Text → Text
units n name = decimal n ++ codes " " ++ name ++ codes " ago"

-- `timeAgo`, of nanoseconds.
unfoldable pub time_ago : ℕ → Text
time_ago d =
    if ltb d minute
    then codes "just now"
    else if ltb d (2 * minute)
    then codes "a minute ago"
    else if ltb d hour
    then units (d / minute) (codes "minutes")
    else if ltb d (2 * hour)
    then codes "about an hour ago"
    else if ltb d (24 * hour)
    then units (d / hour) (codes "hours")
    else if ltb d (48 * hour)
    then codes "yesterday"
    else if ltb d (7 * 24 * hour)
    then units (d / (24 * hour)) (codes "days")
    else if ltb d (14 * 24 * hour)
    then codes "last week"
    else if ltb d (31 * 24 * hour)
    then units (d / (24 * 7 * hour)) (codes "weeks")
    else if ltb d (61 * 24 * hour)
    then codes "last month"
    else if ltb d (365 * 24 * hour)
    then units (d / (24 * 30 * hour)) (codes "months")
    else if ltb d (2 * 365 * 24 * hour)
    then codes "last year"
    else units (d / (24 * 365 * hour)) (codes "years")

module _ (lower : Text → Text) (clock : ℕ → Text) where
  -- What `lastAct` says of the latest act, now in nanoseconds.
  abbrev pub said_of : ℕ → Text → Text → Map Text Act → Text × Act → Text
  said_of now target channel acts (last, a) =
      let ago = time_ago (now - a.time * 1000000000) in
      let here = λ (b : Act). clock a.time ++ codes " <" ++ target ++ codes "> " ++ b.msg in
      if last == channel
      then target ++ codes " was last seen " ++ ago ++ codes " on this channel: " ++ here a
      else elim (lookup channel acts) [
        | none ↦
            target
            ++ codes " was last seen in "
            ++ last
            ++ codes " "
            ++ ago
            ++ codes ". Never seen in this channel!"
        | some b ↦
            target
            ++ codes " was last seen in "
            ++ last
            ++ codes " "
            ++ ago
            ++ codes ". Last here "
            ++ time_ago (now - b.time * 1000000000)
            ++ codes ": "
            ++ here b
      ]

  -- `lastAct`
  unfoldable pub last_act : ℕ → Text → Text → Text → Lastseen → Text
  unfolding newest
  last_act now target server channel m =
      let acts = by_channel server (lower target) m in
      elim (newest acts none) [
        | none ↦ target ++ codes " destroyed (never seen that nick anywhere)."
        | some entry ↦ said_of now target channel acts entry
      ]

  -- `cbLast`: the line for the channel, and whether the command was handled.
  unfoldable pub last_command : ℕ → Event → Text → Lastseen → Option Text × Bool
  unfolding last_act
  last_command now ev argument m =
      let target = trim_space argument in
      if ev.sender_me
      then (none, false)
      else if length target == 0
      then (some (codes "!last <nick> Shows last known activity for <nick> on this channel"), true)
      else (some (last_act now target ev.server ev.channel m), true)
