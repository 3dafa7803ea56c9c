-- ===== src/Guard/Tests.antt =====
-- modules/guard/guard.go and enforce.go: a stranger who floods two channels, and a resident.
use mathlib.Core.List.{flatten}
use botje.Prelude.{
  ◌*◌, Text, codes, Bool, true, false, [], ◌∷◌, lookup, insert, remove, length, contains,
  has_prefix, skip, trim_space, pieces, rune_width, is_space_rune, text_beq, decimal, ◌≡◌, refl,
  nat_eq, text_eq,
}
use botje.Event.{Event}
use botje.Guard.{
  Settings, Guard, raw, privmsg, is_resident, second, on_seen, turn_on, turn_off, age_out, flush,
}
use botje.Guard.Strangers.{says, joins, hear_all, hear_all-frozen}

abbrev same : Text → Text
same t = t

abbrev conf : Settings
conf = record {
  resident_days = 30;
  gline_seconds = 60;
  dup_channels = 2;
  join_channels = 3;
  join_window_sec = 10;
  line_rate = 3;
  line_window_sec = 10;
  auth_password = codes "pw";
}

abbrev line : Bool → Text → Text → Event
line query channel msg = record {
  name = [];
  bot_nick = [];
  server = codes "s";
  sender = record { nick = codes "n"; user = codes "u"; host = codes "h"; user_id = [] };
  sender_me = false;
  channel = channel;
  target_me = false;
  query = query;
  msg = msg;
  raw = record { prefix = []; cmd = []; params = [] };
  target = [];
  reason = [];
  mode = [];
  topic = [];
  args = [];
  net_split = false;
}

abbrev hears : Text → Text → Event
hears = line false

abbrev asks : Text → Event
asks msg = line true [] msg

abbrev guarding : Guard
guarding = record {
  enabled = true;
  residents = (codes "s", (codes "v@h", 5) ∷ []) ∷ [];
  saved = [];
  dirty = false;
  strangers = 0;
  actions = 0;
  suspects = [];
}

-- The same line in two channels.
spammer-sends :
    (hear_all same conf
      (says 1 1 (hears (codes "#a") (codes "x")) ∷ says 2 2 (hears (codes "#b") (codes "x")) ∷ [])
      guarding).1
    ≡ raw (codes "GLINE *@h 60s :spam guard: same message to multiple channels")
      ∷ raw (codes "KICK #a n :spam guard: same message to multiple channels")
      ∷ raw (codes "KICK #b n :spam guard: same message to multiple channels")
      ∷ []
unfolding hear_all lookup text_beq contains insert decimal
spammer-sends = refl

joiner-sends :
    length
      (hear_all same conf
        (joins 1 1 (hears (codes "#a") [])
          ∷ joins 2 2 (hears (codes "#b") [])
          ∷ joins 3 3 (hears (codes "#c") [])
          ∷ joins 4 4 (hears (codes "#d") [])
          ∷ [])
        guarding).1
    ≡ 4
unfolding hear_all lookup text_beq contains insert
joiner-sends = refl

slow_joiner-quiet :
    (hear_all same conf
      (joins 0 0 (hears (codes "#a") [])
        ∷ joins 0 0 (hears (codes "#b") [])
        ∷ joins (11 * second) 0 (hears (codes "#c") [])
        ∷ [])
      guarding).1
    ≡ []
unfolding hear_all lookup text_beq contains insert
slow_joiner-quiet = refl

password-clears :
    let (g, out) = on_seen same conf (9 * second) 0 (asks (codes "auth pw")) guarding in
    (is_resident (codes "s") (codes "u@h") g ≡ true)
    × (out ≡ privmsg (codes "n") (codes "Guard: you are cleared. Welcome.") ∷ [])
unfolding on_seen is_resident remove lookup text_beq contains insert has_prefix trim_space flatten
    pieces rune_width is_space_rune skip
password-clears = (refl, refl)

wrong_password-refused :
    (on_seen same conf (9 * second) 0 (asks (codes "auth no")) guarding).1
    ≡ privmsg (codes "n") (codes "Guard: authentication failed.") ∷ []
unfolding on_seen text_beq has_prefix trim_space flatten pieces rune_width is_space_rune skip
wrong_password-refused = refl

off-learns :
    is_resident
      (codes "s")
      (codes "u@h")
      (on_seen same conf second second (hears (codes "#a") (codes "x")) (turn_off guarding)).0
    ≡ true
unfolding on_seen turn_off is_resident lookup text_beq contains insert
off-learns = refl

on_again-enabled : (turn_on (turn_off guarding)).enabled ≡ true
unfolding turn_on turn_off
on_again-enabled = refl

old-forgotten :
    ((age_out conf (2592005 * second) guarding).residents ≡ guarding.residents)
    × ((age_out conf (2592006 * second) guarding).residents ≡ [])
unfolding age_out
old-forgotten = (refl, refl)

flush-saves : (flush true (age_out conf (2592006 * second) guarding)).dirty ≡ false
unfolding flush age_out
flush-saves = refl

hear_all-frozen_example :
    is_resident
      (codes "s")
      (codes "u@h")
      (hear_all same conf
        (says 1 1 (hears (codes "#a") (codes "x")) ∷ joins 2 2 (hears (codes "#b") []) ∷ [])
        guarding).0
    ≡ is_resident (codes "s") (codes "u@h") guarding
hear_all-frozen_example =
    hear_all-frozen same conf
      (says 1 1 (hears (codes "#a") (codes "x")) ∷ joins 2 2 (hears (codes "#b") []) ∷ []) guarding
      (codes "s") (codes "u@h") refl
