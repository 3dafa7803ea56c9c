-- ===== src/Lastseen/Heard.antt =====
-- modules/lastseen/lastseen.go: what is remembered of the messages.
use botje.Prelude.{
  ℕ, suc, Text, codes, Map, Bool, false, not, ◌||◌, ◌&&◌, length, has_prefix, nat_beq_iff, nat_eq,
  sym, List, [], ◌∷◌, Option, some, lookup, insert, lookup-insert, or_else, text_eq, text_beq_iff,
  arith, ◌≡◌, refl, ◌∙◌, ap, ◌==◌, if◌then◌else◌, ltb, Bool-cases, inl, inr,
}
use botje.Event.{Event}
use botje.Lastseen.{Act, Nicks, Lastseen, act_in, counts, with_act, on_privmsg, save_interval}

abbrev found : Text → Text → Text → Map Text Nicks → Option Act
found server nick channel activity =
    lookup channel (or_else (lookup nick (or_else (lookup server activity) [])) [])

found-with_act :
    (server nick channel : Text) (a : Act) (activity : Map Text Nicks)
    (server' nick' channel' : Text)
    → found server' nick' channel' (with_act server nick channel a activity) ≡ (
        if server == server' && nick == nick' && channel == channel'
        then some a
        else found server' nick' channel' activity)
found-with_act server nick channel a activity server' nick' channel' =
    let nicks = or_else (lookup server activity) [] in
    let acts = or_else (lookup nick nicks) [] in
    ground (
      arith,
      lookup-insert server server' (insert nick (insert channel a acts) nicks) activity,
      lookup-insert nick nick' (insert channel a acts) nicks,
      lookup-insert channel channel' a acts,
      text_beq_iff server server',
      text_beq_iff nick nick',
      text_beq_iff channel channel',
    )

-- A message with a first byte, and that is no `!`.
abbrev pub is_talk : Text → Bool
is_talk [] = false
is_talk (c ∷ cs) = not (c == b'!')

counts-is_talk :
    (me : Bool) (msg : Text)
    → not (me || length msg == 0 || has_prefix (codes "!") msg) ≡ (not me && is_talk msg)
unfolding has_prefix
counts-is_talk me [] = ground arith
counts-is_talk me (c ∷ cs) = ground (arith, nat_beq_iff c b'!', nat_beq_iff b'!' c)

module _ (lower : Text → Text) where
  -- The messages of a stretch of time, each at its time.
  abbrev pub hear_all : List (ℕ × Event) → Lastseen → Lastseen
  hear_all [] m = m
  hear_all ((now, ev) ∷ rest) m = hear_all rest (on_privmsg lower now ev m).0

  -- What stands for a nick in a channel, when a message is heard from somebody.
  abbrev pub heard : Text → Text → Text → ℕ × Event → Option Act → Option Act
  heard server nick channel (now, ev) old =
      if not ev.sender_me && is_talk ev.msg
      then (if ev.server == server && lower ev.sender.nick == nick && ev.channel == channel
          then some (record { msg = ev.msg; time = now })
          else old)
      else old

  abbrev pub last_heard : Text → Text → Text → List (ℕ × Event) → Option Act → Option Act
  last_heard server nick channel [] old = old
  last_heard server nick channel (e ∷ rest) old =
      last_heard server nick channel rest (heard server nick channel e old)

  act_in-on_privmsg :
      (server nick channel : Text) (now : ℕ) (ev : Event) (m : Lastseen)
      → act_in server nick channel (on_privmsg lower now ev m).0
        ≡ heard server nick channel (now, ev) (act_in server nick channel m)
  unfolding on_privmsg
  act_in-on_privmsg server nick channel now ev m =
      let a : Act = record { msg = ev.msg; time = now } in
      let told =
        found-with_act ev.server (lower ev.sender.nick) ev.channel a m.activity server nick
          channel in
      let same = counts-is_talk ev.sender_me ev.msg in
      elim (Bool-cases (counts ev)) [
        | inl counted ↦ rw counted (
            rw (sym same ∙ counted) (elim (Bool-cases (ltb (suc m.msg_count) save_interval)) [
              | inl more ↦ rw more told
              | inr full ↦ rw full told
            ]))
        | inr ignored ↦ rw ignored (rw (sym same ∙ ignored) refl)
      ]

  -- After any messages, what is remembered of a nick in a channel is its last message there, with
  -- its time, of those that are not the bot's own, not empty and no command, or else what was
  -- remembered before.
  pub act_in-hear_all :
      (server nick channel : Text) (events : List (ℕ × Event)) (m : Lastseen)
      → act_in server nick channel (hear_all events m)
        ≡ last_heard server nick channel events (act_in server nick channel m)
  act_in-hear_all server nick channel [] m = refl
  act_in-hear_all server nick channel ((now, ev) ∷ rest) m =
      act_in-hear_all server nick channel rest (on_privmsg lower now ev m).0
      ∙ ap (last_heard server nick channel rest) (act_in-on_privmsg server nick channel now ev m)
