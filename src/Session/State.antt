-- ===== src/Session/State.antt =====
-- internal/irc/session.go: the state of a session, and what it gives out.
use botje.Prelude.{
  ℕ, Text, codes, Map, Bool, false, [], insert, lookup, Option, none, some, or_else, text_eq,
}
use botje.Event.{Event}

-- What a session does to its owner, in order: the calls of `Send`, `SendHigh`, `Emit`, `Welcome`.
pub data Output : Type 0 where
  send : Text → Output
  send_high : Text → Output
  emit : Event → Output
  welcome : Output

-- `channelState`. A nil map reads as an empty one; 0 is the zero time.
pub record Channel : Type 0 where
  pub joined : ℕ
  pub topic : Text
  pub members : Map Text Text
  pub pending : Map Text Text

pub record Session : Type 0 where
  pub user_name : Text
  pub real_name : Text
  pub has_welcome : Bool
  pub network : Text
  pub nick : Text
  pub welcomed : Bool
  pub channels : Map Text Channel
  pub mode : Text
  pub motd : Text
  pub last_nick : Text
  pub last_user : Text
  pub last_host : Text

unfoldable pub new_session : Text → Text → Session
new_session network nick = record {
  user_name = codes "Botje";
  real_name = codes "BenV's Test Bot";
  has_welcome = false;
  network = network;
  nick = nick;
  welcomed = false;
  channels = [];
  mode = [];
  motd = [];
  last_nick = [];
  last_user = [];
  last_host = [];
}

abbrev pub empty_channel : Channel
empty_channel = record { joined = 0; topic = []; members = []; pending = [] }

-- `&channelState{joined: now}`
abbrev pub joined_at : ℕ → Channel
joined_at now = record empty_channel { joined = now }

abbrev pub put_channel : Text → Channel → Session → Session
put_channel name c s = record s { channels = insert name c s.channels }

abbrev pub update_or : Option Channel → Text → (Channel → Channel) → Session → Session
update_or none name f s = s
update_or (some c) name f s = put_channel name (f c) s

-- `if st, ok := s.channels[name]; ok { … }`
unfoldable pub update_channel : Text → (Channel → Channel) → Session → Session
update_channel name f s = update_or (lookup name s.channels) name f s

-- The topic is written, in a new entry where there is none.
unfoldable pub set_topic : Text → Text → Session → Session
set_topic name topic s =
    put_channel name (record (or_else (lookup name s.channels) empty_channel) { topic = topic }) s
