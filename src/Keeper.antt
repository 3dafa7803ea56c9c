-- ===== src/Keeper.antt =====
-- internal/keeper/keeper.go: the process that holds the connection to IRC and relays bytes to and
-- from the core. A connection is a number. The environment decides whether a write to the core or a
-- probe succeeds, so that is an argument; a lock makes each operation here one step.
pub mod Buffers
pub mod Lines
pub mod Reach
mod Tests
use botje.Prelude.{
  ℕ, zero, suc, ◌+◌, ◌-◌, ◌*◌, ◌/◌, Text, codes, Bool, true, false, not, ◌&&◌, List, [], ◌∷◌, ◌++◌,
  Option, none, some, length, take, drop, leb, ltb, ◌==◌, nat_eq, if◌then◌else◌,
}

abbrev pub max_buffer : ℕ
max_buffer = 4 * 1024 * 1024

abbrev pub max_out_buffer : ℕ
max_out_buffer = 16 * 1024

-- `buf` of `pumpIRC` and `pumpCore`.
abbrev pub read_size : ℕ
read_size = 32 * 1024

abbrev pub probe_line : Text
probe_line = codes "PING :keeper\r\n"

pub record Keeper : Type 0 where
  pub irc : Option ℕ
  pub core : Option ℕ
  pub buffer : Text
  pub out_buf : Text
  pub out_dropped : Bool
  pub closed : Bool

abbrev pub fresh : Keeper
fresh = record {
  irc = none;
  core = none;
  buffer = [];
  out_buf = [];
  out_dropped = false;
  closed = false;
}

-- What an operation does to a connection, in order.
pub data Act : Type 0 where
  write : ℕ → Text → Act
  close : ℕ → Act

abbrev close_any : Option ℕ → List Act
close_any none = []
close_any (some conn) = close conn ∷ []

is_nil : Text → Bool
is_nil [] = true
is_nil (c ∷ cs) = false

write_any : ℕ → Text → List Act
unfolding is_nil
write_any conn held = if is_nil held then [] else write conn held ∷ []

-- `bufferLocked`
pub buffer_in : Text → Keeper → Keeper
buffer_in b k =
    let over = length k.buffer + length b - max_buffer in
    let kept =
      if ltb max_buffer (length k.buffer + length b)
      then (if leb (length k.buffer) over then [] else drop over k.buffer)
      else k.buffer in
    record k { buffer = kept ++ b }

-- What stands before the last newline, with it: `bytes.LastIndexByte`.
pub to_last_newline : Text → Text
to_last_newline [] = []
to_last_newline (c ∷ cs) = elim (to_last_newline cs) [
  | [] ↦ if c == 10 then c ∷ [] else []
  | d ∷ ds ↦ c ∷ d ∷ ds
]

-- `bufferOutLocked`
pub buffer_out : Text → Keeper → Keeper
unfolding to_last_newline
buffer_out b k =
    let room = max_out_buffer - length k.out_buf in
    if k.out_dropped
    then k
    else if ltb max_out_buffer (length k.out_buf + length b)
    then record k {
      out_buf = to_last_newline (if ltb 0 room then k.out_buf ++ take room b else k.out_buf);
      out_dropped = true;
    }
    else record k { out_buf = k.out_buf ++ b }

-- `toCore`
pub to_core : Bool → Text → Keeper → Keeper × List Act
unfolding buffer_in
to_core ok b k = elim k.core [
  | none ↦ (buffer_in b k, [])
  | some conn ↦
      if ok
      then (k, write conn b ∷ [])
      else (buffer_in b (record k { core = none }), write conn b ∷ [])
]

-- `toIRC`
pub to_irc : Text → Keeper → Keeper × List Act
unfolding buffer_out
to_irc b k = elim k.irc [ none ↦ (buffer_out b k, []) | some conn ↦ (k, write conn b ∷ []) ]

-- `setIRC`
pub set_irc : Option ℕ → Keeper → Keeper × List Act
unfolding write_any
set_irc none k = (record k { irc = none; out_buf = []; out_dropped = false }, close_any k.irc)
set_irc (some conn) k = if k.closed then (k, close conn ∷ []) else (
  record k { irc = some conn; out_buf = []; out_dropped = false },
  write_any conn k.out_buf ++ close_any k.irc,
)

-- `attachCore`
pub attach_core : ℕ → Keeper → Keeper × List Act
unfolding write_any
attach_core conn k =
    (record k { core = some conn; buffer = [] }, close_any k.core ++ write_any conn k.buffer)

is_core : ℕ → Option ℕ → Bool
is_core conn none = false
is_core conn (some c) = c == conn

-- `detachCore`
pub detach_core : ℕ → Keeper → Keeper × List Act
unfolding is_core
detach_core conn k = (
  if is_core conn k.core then record k { core = none; out_buf = []; out_dropped = false } else k,
  close conn ∷ [],
)

-- `dropSession`
pub drop_session : Keeper → Keeper × List Act
drop_session k = (record k { buffer = [] }, close_any k.core)

-- `closeConns`
pub close_conns : Keeper → Keeper × List Act
close_conns k = (record k { closed = true }, close_any k.irc ++ close_any k.core)

-- `goodbye`
pub goodbye : Keeper → Keeper × List Act
goodbye k = elim k.irc [
  | none ↦ (k, [])
  | some conn ↦ (k, write conn (codes "QUIT :keeper shutting down\r\n") ∷ [])
]

-- How a read of the IRC connection ends: well, at the deadline, or with another error.
pub data ReadEnd : Type 0 where
  fine at_deadline broken : ReadEnd

-- The deadline of the next read.
pub wait_for : ℕ → Bool → ℕ
wait_for timeout probed = if probed then timeout - timeout / 2 else timeout / 2

-- One round of `pumpIRC` after `toCore`, from whether a probe is out: whether one is out afterwards
-- (none is the end of the pump), and whether it writes one. `probe_ok` is that write's success.
pub pump_read : Bool → Bool → Text → ReadEnd → Option Bool × Bool
unfolding is_nil
pump_read probe_ok probed b fine = (some (probed && is_nil b), false)
pump_read probe_ok probed b broken = (none, false)
pump_read probe_ok probed b at_deadline =
    if not (is_nil b)
    then (some false, false)
    else if probed
    then (none, false)
    else (if probe_ok then some true else none, true)
