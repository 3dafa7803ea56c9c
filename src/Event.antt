-- ===== src/Event.antt =====
-- internal/bus/bus.go: `Event`, `Sender` and `RawCmd`.
use botje.Prelude.{Text, Bool, List}

pub record Sender : Type 0 where
  pub nick : Text
  pub user : Text
  pub host : Text
  pub user_id : Text

pub record RawCmd : Type 0 where
  pub prefix : Text
  pub cmd : Text
  pub params : Text

pub record Event : Type 0 where
  pub name : Text
  pub bot_nick : Text
  pub server : Text
  pub sender : Sender
  pub sender_me : Bool
  pub channel : Text
  pub target_me : Bool
  pub query : Bool
  pub msg : Text
  pub raw : RawCmd
  pub target : Text
  pub reason : Text
  pub mode : Text
  pub topic : Text
  pub args : List Text
  pub net_split : Bool
