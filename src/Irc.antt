-- ===== src/Irc.antt =====
-- internal/irc: the protocol layer. Parsing, framing, numerics, and the session.
pub mod Numerics
pub mod Parse
pub mod Params
pub mod Frame
mod Tests
