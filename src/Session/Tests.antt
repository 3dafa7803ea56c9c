-- ===== src/Session/Tests.antt =====
-- internal/irc/session.go: runs of a session, and the theorems at them.
use botje.Prelude.{
  values, keys, sort_texts, sort_by, insert_by, text_ltb, ◌+◌, Text, codes, map, leb, true, false,
  not, ◌&&◌, ◌||◌, List, [], ◌∷◌, ◌==◌, text_eq, text_beq, lookup, if◌then◌else◌, ◌≡◌, refl, length,
}
use botje.Event.{Event}
use botje.Session.State.{send, Session, new_session}
use botje.Session.Members.{nick_in, topic_of, members_of, channels_of}
use botje.Session.Handlers.{on_nick}
use botje.Session.{kind_of, welcomes, event_of, register, join_channels, handle_lines}
use botje.Session.Welcome.{count_welcome, owed, handle_lines-owed}
use botje.Session.Keyed.{IsKeyed}
use botje.Session.KeyedLines.{handle_lines-Keyed}
use botje.Session.Tracking.{nick_in-on_nick}

abbrev lower : Text → Text
lower = map (λ c. if leb b'A' c && leb c b'Z' then c + 32 else c)

abbrev begun : Session
begun = record (new_session (codes "net") (codes "botje")) { has_welcome = true }

abbrev lines : List Text
lines =
    codes ":irc.example 001 botje :Welcome"
    ∷ codes ":botje!b@host JOIN #perl"
    ∷ codes ":irc.example 353 botje = #perl :@Bob alice"
    ∷ codes ":irc.example 366 botje #perl :End"
    ∷ []

abbrev room : Session
room = record begun {
  channels =
      (
        codes "#perl",
        record {
          joined = 5;
          topic = codes "camels";
          members = (codes "bob", codes "Bob") ∷ (codes "alice", codes "alice") ∷ [];
          pending = [];
        },
      )
      ∷ [];
}

abbrev from_bob : Event
from_bob = record {
  name = [];
  bot_nick = codes "botje";
  server = codes "net";
  sender = record { nick = codes "Bob"; user = codes "b"; host = codes "host"; user_id = [] };
  sender_me = false;
  channel = [];
  target_me = false;
  query = false;
  msg = [];
  raw = record { prefix = []; cmd = []; params = [] };
  target = [];
  reason = [];
  mode = [];
  topic = [];
  args = [];
  net_split = false;
}

register_sends : length (register begun).1 ≡ 2
unfolding register
register_sends = refl

join_channels_sends :
    (join_channels 9 (codes "#perl" ∷ []) room).1
    ≡ send (codes "JOIN #perl") ∷ send (codes "NAMES #perl") ∷ []
unfolding join_channels
join_channels_sends = refl

topic_of-room : topic_of (codes "#perl") room ≡ codes "camels"
unfolding topic_of lookup text_beq
topic_of-room = refl

handle_lines-owed_example :
    count_welcome (handle_lines lower 7 lines begun).1 + owed (handle_lines lower 7 lines begun).0
    ≡ owed begun
handle_lines-owed_example = handle_lines-owed lower 7 lines begun refl

handle_lines-Keyed_example :
    IsKeyed lower (handle_lines lower 7 lines (new_session (codes "net") (codes "botje"))).0
handle_lines-Keyed_example = handle_lines-Keyed lower 7 lines (codes "net") (codes "botje")

nick_in-on_nick_example :
    nick_in lower
      (codes "#perl")
      (codes "rob")
      (on_nick lower from_bob ((b'R' ∷ codes "ob") ∷ []) room).0
    ≡ (nick_in lower (codes "#perl") (codes "Bob") room
          && lower (b'R' ∷ codes "ob") == lower (codes "rob")
        || not (lower (codes "Bob") == lower (codes "rob"))
          && nick_in lower (codes "#perl") (codes "rob") room)
nick_in-on_nick_example =
    nick_in-on_nick lower from_bob b'R' (codes "ob") [] room (codes "#perl") (codes "rob")

kind_of_numeric : kind_of (codes "ERR_ALREADYREGISTRED") ≡ welcomes
unfolding kind_of text_beq
kind_of_numeric = refl

event_of_sender :
    (event_of
      (record { prefix = []; cmd = []; name = codes "PING"; code = []; params = [] })
      (codes "n", codes "u", codes "h")
      begun).sender.host
    ≡ codes "h"
unfolding event_of
event_of_sender = refl

members_of-room : members_of (codes "#perl") room ≡ codes "Bob" ∷ codes "alice" ∷ []
unfolding members_of lookup text_beq values sort_texts sort_by insert_by text_ltb
members_of-room = refl

channels_of-room : channels_of room ≡ codes "#perl" ∷ []
unfolding channels_of keys sort_texts sort_by insert_by
channels_of-room = refl
