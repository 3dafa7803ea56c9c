-- ===== src/Core.antt =====
-- internal/core: the wiring. transport.go is the connection with its session, the messages that go
-- out, and the shutdown; of core.go and builtins.go the autojoin channels. The events that go to the
-- bus and the commands are an output, in order: their handlers are the modules'. A receiver is valid
-- UTF-8. `lower` stands for `strings.ToLower`, `fold` for `strings.EqualFold`.
pub mod Link
pub mod Held
pub mod Order
pub mod Outgoing
pub mod Limits
mod Tests
