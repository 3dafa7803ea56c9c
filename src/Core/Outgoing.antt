-- ===== src/Core/Outgoing.antt =====
-- internal/core/transport.go, core.go and builtins.go: what goes out, and the autojoin channels.
use botje.Prelude.{
  ℕ, Text, codes, delete_if, Bool, true, false, not, ◌&&◌, ◌||◌, List, [], ◌∷◌, ◌++◌, Option, none,
  some, length, ◌==◌, nat_eq, text_eq, if◌then◌else◌, map,
}
use botje.Event.{Event}
use botje.Session.{join_channels}
use botje.Session.{in_channel, members_of}
use botje.Wrap.{split_message}
use botje.Pager.{split_lines, is_blank}
use botje.Core.Link.{Link, Does, wire, wire_high, dispatches, wired}

-- `isChannel`
abbrev pub is_channel : Text → Bool
is_channel [] = false
is_channel (c ∷ cs) = c == b'#' || c == b'&' || c == b'+' || c == b'!'

-- What `strings.Map` leaves of a receiver.
abbrev pub receiver_of : Text → Text
receiver_of r = delete_if (λ c. c == b':' || c == b' ' || c == 9 || c == 13 || c == 10) r

-- `splitLines`
abbrev pub message_lines : Text → List Text
message_lines msg = delete_if is_blank (split_lines msg)

-- An event with a name and nothing else.
abbrev pub bare : Text → Event
bare name = record {
  name = name;
  bot_nick = [];
  server = [];
  sender = record { nick = []; user = []; host = []; user_id = [] };
  sender_me = false;
  channel = [];
  target_me = false;
  query = false;
  msg = [];
  raw = record { prefix = []; cmd = []; params = [] };
  target = [];
  reason = [];
  mode = [];
  topic = [];
  args = [];
  net_split = false;
}

module _ (network nick : Text) where
  -- The event for a line of the bot's own.
  abbrev pub sent_event : Text → Text → Event
  sent_event receiver part = record (bare (codes "IRC_SENT")) {
    bot_nick = nick;
    server = network;
    sender = record { nick = nick; user = []; host = []; user_id = [] };
    sender_me = true;
    channel = receiver;
    msg = part;
  }

  abbrev pub lines_out : Text → List Text → List Does
  lines_out receiver [] = []
  lines_out receiver (part ∷ parts) =
      map (λ l. wire l) (split_message (codes "PRIVMSG " ++ receiver ++ codes " :") part)
      ++ dispatches (sent_event receiver part) ∷ lines_out receiver parts

  -- `privmsg`, without a connection or with one.
  unfoldable pub privmsg : Option Link → Text → Text → List Does
  privmsg none receiver msg = []
  privmsg (some l) receiver msg =
      let r = receiver_of receiver in
      if not l.session.welcomed
      then []
      else if length r == 0
      then []
      else if is_channel r && not (in_channel r l.session)
      then []
      else lines_out r (message_lines msg)

-- `sendRaw`
unfoldable pub send_raw : Option Link → Text → List Does
send_raw none line = []
send_raw (some l) line = wire_high line ∷ []

-- `inChannel`
unfoldable pub is_joined : Option Link → Text → Bool
is_joined none channel = false
is_joined (some l) channel = in_channel channel l.session

-- `members`
unfoldable pub members_in : Option Link → Text → List Text
members_in none channel = []
members_in (some l) channel = members_of channel l.session

-- What `shutdown` does before it closes the connection; `goodbye` is the message that was drawn.
unfoldable pub shutdown : Bool → Text → Option Link → List Does
shutdown skip_goodbye goodbye none = []
shutdown skip_goodbye goodbye (some l) =
    dispatches (bare (codes "QUIT"))
    ∷ (if skip_goodbye then [] else wire (codes "QUIT :" ++ goodbye) ∷ [])

module _ (fold : Text → Text → Bool) where
  abbrev pub has_channel : Text → List Text → Bool
  has_channel ch [] = false
  has_channel ch (have ∷ chs) = fold have ch || has_channel ch chs

  -- `addChannel`; a new channel is also saved.
  unfoldable pub add_channel : Text → List Text → List Text × Bool
  add_channel ch chs = if has_channel ch chs then (chs, false) else (chs ++ ch ∷ [], true)

  -- `removeChannel`; what is left is also saved if it is less.
  unfoldable pub remove_channel : Text → List Text → List Text × Bool
  remove_channel ch chs =
      let left = delete_if (λ have. fold have ch) chs in
      if length left == length chs then (chs, false) else (left, true)

  abbrev pub join_one : ℕ → Text → Option Link → Option Link × List Does
  join_one now ch none = (none, [])
  join_one now ch (some l) =
      let (s, out) = join_channels now (ch ∷ []) l.session in
      (some (record l { session = s }), wired out)

  -- The hook on `IRC_INVITE`.
  unfoldable pub invited : ℕ → Event → List Text → Option Link → List Text × Option Link × List Does
  unfolding add_channel
  invited now ev chs link =
      if length ev.channel == 0
      then (chs, link, [])
      else (let (link', does) = join_one now ev.channel link in
          ((add_channel ev.channel chs).0, link', does))

  -- The command `join`, on the channel that was matched: whether it was new is the answer.
  unfoldable pub join_command :
      ℕ → Text → List Text → Option Link → List Text × Option Link × List Does × Bool
  unfolding add_channel
  join_command now ch chs link =
      let (chs', added) = add_channel ch chs in
      let (link', does) = join_one now ch link in (chs', link', does, added)

  -- The command `part`.
  unfoldable pub part_command : Text → List Text → Option Link → List Text × List Does × Bool
  unfolding remove_channel
  part_command ch chs link =
      let (chs', removed) = remove_channel ch chs in
      (chs', (if removed then parting link else []), removed)
    where
      parting : Option Link → List Does
      parting none = []
      parting (some l) = wire (codes "PART " ++ ch) ∷ []
