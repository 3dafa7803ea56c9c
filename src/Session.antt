-- ===== src/Session.antt =====
-- internal/irc/session.go: the per-network protocol state machine. The children hold its state and
-- its handlers; here is the dispatch of a line.
mod State
mod Members
mod Handlers
pub mod Welcome
pub mod Keyed
pub mod KeyedLines
pub mod Tracking
pub mod Backoff
mod Tests
use botje.Prelude.{
  String, ℕ, zero, suc, ◌+◌, Text, codes, Bool, true, false, List, [], ◌∷◌, ◌++◌, ◌==◌, text_eq,
  lookup, insert, is_some, Option, none, some, if◌then◌else◌,
}
use botje.Event.{Event}
use botje.Irc.Parse.{Line, parse_line, parse_prefix}
use botje.Irc.Params.{split_params}
unfoldable pub use Members.{in_channel, members_of}
pub use State.{Output, send, send_high, emit, welcome, Channel, Session, put_channel, joined_at}
unfoldable pub use State.{new_session}
use Handlers.{
  Step, on_error, on_ping, on_privmsg, on_notice, on_mode, on_join, on_part, on_kick, on_invite,
  on_quit, on_nick, on_topic, on_rpl_topic, on_nam_reply, on_end_of_names, on_nick_in_use,
  on_welcome, on_motd,
}

-- `Register`
unfoldable pub register : Session → Step
register s = (
  s,
  send (codes "NICK " ++ s.nick)
      ∷ send (codes "USER " ++ s.user_name ++ codes " i * :" ++ s.real_name)
      ∷ [],
)

-- `JoinChannels`
unfoldable pub join_channels : ℕ → List Text → Session → Step
join_channels now [] s = (s, [])
join_channels now (ch ∷ chs) s =
    let marked = if is_some (lookup ch s.channels) then s else put_channel ch (joined_at now) s in
    let (s', out) = join_channels now chs marked in
    (s', send (codes "JOIN " ++ ch) ∷ send (codes "NAMES " ++ ch) ∷ out)

unless_nil : Text → Text → Text
unless_nil [] old = old
unless_nil (c ∷ cs) old = c ∷ cs

-- The sender of a line: its prefix, or the last one seen.
pub with_sender : Text → Session → (Text × Text × Text) × Session
unfolding unless_nil
with_sender [] s = ((s.last_nick, s.last_user, s.last_host), s)
with_sender (c ∷ cs) s =
    let (n, u, h) = parse_prefix (c ∷ cs) in
    (
      (n, u, h),
      record s {
        last_nick = n;
        last_user = unless_nil u s.last_user;
        last_host = unless_nil h s.last_host;
      },
    )

-- The event that `HandleLine` begins, before the name is given.
pub event_of : Line → Text × Text × Text → Session → Event
event_of line (n, u, h) s = record {
  name = [];
  bot_nick = s.nick;
  server = s.network;
  sender = record { nick = n; user = u; host = h; user_id = [] };
  sender_me = n == s.nick;
  channel = [];
  target_me = false;
  query = false;
  msg = [];
  raw = record { prefix = line.prefix; cmd = line.name; params = line.params };
  target = [];
  reason = [];
  mode = [];
  topic = [];
  args = [];
  net_split = false;
}

-- What `HandleLine` switches on.
pub data Kind : Type 0 where
  error ping privmsg notice mode join part kick invite quit nick topic : Kind
  rpl_topic nam_reply end_of_names nick_in_use welcomes motd_start motd other : Kind

is_name : String → Text → Bool
is_name w name = name == codes w

pub kind_of : Text → Kind
unfolding is_name
kind_of n =
    if is_name "ERROR" n
    then error
    else if is_name "PING" n
    then ping
    else if is_name "PRIVMSG" n
    then privmsg
    else if is_name "NOTICE" n
    then notice
    else if is_name "MODE" n
    then mode
    else if is_name "JOIN" n
    then join
    else if is_name "PART" n
    then part
    else if is_name "KICK" n
    then kick
    else if is_name "INVITE" n
    then invite
    else if is_name "QUIT" n
    then quit
    else if is_name "NICK" n
    then nick
    else if is_name "TOPIC" n
    then topic
    else if is_name "RPL_TOPIC" n
    then rpl_topic
    else if is_name "RPL_NAMREPLY" n
    then nam_reply
    else if is_name "RPL_ENDOFNAMES" n
    then end_of_names
    else if is_name "ERR_NICKNAMEINUSE" n
    then nick_in_use
    else if is_name "RPL_WELCOME" n
    then welcomes
    else if is_name "ERR_ALREADYREGISTRED" n
    then welcomes
    else if is_name "RPL_MOTDSTART" n
    then motd_start
    else if is_name "RPL_MOTD" n
    then motd
    else other

module _ (lower : Text → Text) (now : ℕ) where
  pub dispatch : Kind → Event → Text → Session → Step
  dispatch error ev ps s = on_error ev (split_params ps) s
  dispatch ping ev ps s = on_ping (split_params ps) s
  dispatch privmsg ev ps s = on_privmsg ev (split_params ps) s
  dispatch notice ev ps s = on_notice ev (split_params ps) s
  dispatch mode ev ps s = on_mode ev (split_params ps) s
  dispatch join ev ps s = on_join lower now ev (split_params ps) s
  dispatch part ev ps s = on_part lower ev (split_params ps) s
  dispatch kick ev ps s = on_kick lower ev (split_params ps) s
  dispatch invite ev ps s = on_invite ev (split_params ps) s
  dispatch quit ev ps s = on_quit lower ev ps s
  dispatch nick ev ps s = on_nick lower ev (split_params ps) s
  dispatch topic ev ps s = on_topic ev (split_params ps) s
  dispatch rpl_topic ev ps s = on_rpl_topic (split_params ps) s
  dispatch nam_reply ev ps s = on_nam_reply lower (split_params ps) s
  dispatch end_of_names ev ps s = on_end_of_names (split_params ps) s
  dispatch nick_in_use ev ps s = on_nick_in_use s
  dispatch welcomes ev ps s = on_welcome s
  dispatch motd_start ev ps s = (record s { motd = [] }, [])
  dispatch motd ev ps s = on_motd (split_params ps) s
  dispatch other ev ps s = (s, [])

  handle_parsed : Line → Session → Step
  handle_parsed line s =
      let (sender, s') = with_sender line.prefix s in
      dispatch (kind_of line.name) (event_of line sender s') line.params s'

  -- `HandleLine`
  pub handle_line : Text → Session → Step
  unfolding handle_parsed
  handle_line raw s = elim (parse_line raw) [ none ↦ (s, []) | some line ↦ handle_parsed line s ]

  -- The lines of a connection, one after the other.
  pub handle_lines : List Text → Session → Step
  handle_lines [] s = (s, [])
  handle_lines (raw ∷ rest) s =
      let (s', out) = handle_line raw s in
      let (s'', out') = handle_lines rest s' in (s'', out ++ out')
