-- ===== src/Core/Link.antt =====
-- internal/core/transport.go: a connection, from its first line on.
use botje.Prelude.{
  ℕ, Text, codes, Bool, true, not, ◌&&◌, List, [], ◌∷◌, ◌++◌, length, ltb, ◌==◌, nat_eq, text_eq,
  if◌then◌else◌,
}
use botje.Event.{Event}
use botje.Session.{
  Session, Output, send, send_high, emit, welcome, register, join_channels, handle_line,
  new_session,
}

-- `held` are the events that wait for the welcome.
pub record Link : Type 0 where
  pub session : Session
  pub held : List Event

-- What a connection does: a line is queued, or put in front, or an event goes to the bus and, if it
-- is a message, to the commands.
pub data Does : Type 0 where
  wire : Text → Does
  wire_high : Text → Does
  dispatches : Event → Does

abbrev pub is_message : Event → Bool
is_message ev = ev.name == codes "IRC_PRIVMSG" && not ev.sender_me

abbrev pub max_held : ℕ
max_held = 64

-- `Emit`
unfoldable pub on_emit : Event → Link → Link × List Does
on_emit ev l =
    if is_message ev && not l.session.welcomed
    then (if ltb (length l.held) max_held
        then (record l { held = l.held ++ ev ∷ [] }, [])
        else (l, []))
    else (l, dispatches ev ∷ [])

abbrev pub all_dispatched : List Event → List Does
all_dispatched [] = []
all_dispatched (ev ∷ evs) = dispatches ev ∷ all_dispatched evs

-- What joining sends.
abbrev pub wired : List Output → List Does
wired [] = []
wired (send t ∷ out) = wire t ∷ wired out
wired (send_high t ∷ out) = wire_high t ∷ wired out
wired (emit ev ∷ out) = wired out
wired (welcome ∷ out) = wired out

module _ (now : ℕ) (channels : List Text) where
  -- `Welcome`
  unfoldable pub on_welcomed : Link → Link × List Does
  on_welcomed l =
      let (s, out) = join_channels now channels l.session in
      (record { session = s; held = [] }, wired out ++ all_dispatched l.held)

  -- What the session does to its owner, one after the other.
  unfoldable pub follow : List Output → Link → Link × List Does
  unfolding on_emit on_welcomed
  follow [] l = (l, [])
  follow (send t ∷ out) l = let (l', does) = follow out l in (l', wire t ∷ does)
  follow (send_high t ∷ out) l = let (l', does) = follow out l in (l', wire_high t ∷ does)
  follow (emit ev ∷ out) l =
      let (l', does) = on_emit ev l in let (l'', later) = follow out l' in (l'', does ++ later)
  follow (welcome ∷ out) l =
      let (l', does) = on_welcomed l in let (l'', later) = follow out l' in (l'', does ++ later)

-- `connect`, once there is a connection: the session registers.
unfoldable pub connect : Text → Text → Link × List Does
connect network nick =
    let (s, out) = register (record (new_session network nick) { has_welcome = true }) in
    (record { session = s; held = [] }, wired out)

module _ (lower : Text → Text) (channels : List Text) where
  -- `OnLine`
  unfoldable pub on_line : ℕ → Text → Link → Link × List Does
  unfolding follow
  on_line now raw l =
      let (s, out) = handle_line lower now raw l.session in
      follow now channels out (record l { session = s })

  -- The lines of a connection, each at its time.
  unfoldable pub on_lines : List (ℕ × Text) → Link → Link × List Does
  unfolding on_line
  on_lines [] l = (l, [])
  on_lines ((now, raw) ∷ raws) l =
      let (l', does) = on_line now raw l in
      let (l'', later) = on_lines raws l' in (l'', does ++ later)
