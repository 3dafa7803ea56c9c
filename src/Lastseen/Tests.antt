-- ===== src/Lastseen/Tests.antt =====
-- modules/lastseen/lastseen.go: a few messages.
use botje.Prelude.{ℕ, Text, codes, false, List, [], ◌∷◌, text_eq, decimal, ◌≡◌, refl}
use botje.Event.{Event}
use botje.Lastseen.{Lastseen, act_in, time_ago}
use botje.Lastseen.Heard.{hear_all, last_heard, act_in-hear_all}

abbrev lower : Text → Text
lower t = t

abbrev nothing : Lastseen
nothing = record { activity = []; msg_count = 0 }

abbrev says : Text → Text → Event
says channel msg = record {
  name = codes "IRC_PRIVMSG";
  bot_nick = codes "Botje";
  server = codes "example";
  sender = record { nick = codes "bas"; user = []; host = []; user_id = [] };
  sender_me = false;
  channel = channel;
  target_me = false;
  query = false;
  msg = msg;
  raw = record { prefix = []; cmd = []; params = [] };
  target = [];
  reason = [];
  mode = [];
  topic = [];
  args = [];
  net_split = false;
}

abbrev talk : List (ℕ × Event)
talk =
    (100, says (codes "#a") (codes "hoi"))
    ∷ (160, says (codes "#b") (codes "dag"))
    ∷ (170, says (codes "#a") (codes "!last jan"))
    ∷ []

act_in-hear_all_example :
    act_in (codes "example") (codes "bas") (codes "#a") (hear_all lower talk nothing)
    ≡ last_heard lower
        (codes "example")
        (codes "bas")
        (codes "#a")
        talk
        (act_in (codes "example") (codes "bas") (codes "#a") nothing)
act_in-hear_all_example =
    act_in-hear_all lower (codes "example") (codes "bas") (codes "#a") talk nothing

minutes_told : time_ago 300000000000 ≡ codes "5 minutes ago"
unfolding time_ago decimal
minutes_told = refl
