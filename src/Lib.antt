-- ===== src/Lib.antt =====
-- Verification of botje.
--
-- botje is an IRC bot. A connection reads bytes from a server, LineBuffer cuts them into lines,
-- the session of the network handles each line, keeps track of channels and members, sends lines
-- and emits events. Events go through the bus to the hooks of the modules. The command registry is
-- the hook for `!` commands; timers come from the scheduler, users from auth, settings from conf.
-- What is sent is wrapped to the length of a line and waits in the flood queue of its server.
--
-- Text is a list of bytes (Prelude/Texts), numbers are natural, times are nanoseconds. UTF-8 as Go
-- reads it stands in Prelude/Utf8, a map is an association list with one entry for a key
-- (Prelude/Maps).
--
-- Flood: internal/irc/flood/flood.go. `Queue` with `push` (Push), `push_high` (PushHigh), `next`
-- (Next), `pop_round_robin`, `delay`, `len` and `depths`. A clock is a function from the number of
-- the reading to the time. `none` is an index out of range. Flood/Valid has the invariant,
-- Flood/Serve is about a call of Next, Flood/Fair about the turns of the buckets.
--
-- Irc: internal/irc/parse.go and numerics.go. Irc/Parse has `parse_line` and `parse_prefix`, each
-- regular expression of the file as a function; Irc/Params `split_params`; Irc/Frame `feed` of
-- LineBuffer. The loops of Feed and SplitParams run on fuel; each round takes a byte or more, so
-- the length of the text is enough.
--
-- Session: internal/irc/session.go. Session/State has the state, Session/Members the member maps,
-- Session/Handlers one function for each handler, Session the dispatch of HandleLine. The result
-- of a step is the session and the list of what it does: Send, SendHigh, Emit, Welcome. `lower` is
-- a parameter that stands for strings.ToLower. Session/Backoff has the reconnect delays.
--
-- Event and Bus: internal/bus/bus.go. A handler is a tree of the calls that it makes to the bus,
-- ending in its answer or a panic; nested submissions run through the same bus. `submit_in` has
-- fuel for the depth of the nesting, and `none` says that it ran out. A handler that is on the
-- chain is refused, so more fuel than there are pairs of module and event is enough: Bus/Within
-- has the pairs, Bus/Nesting the proof. Handlers that register hooks under ever new pairs can nest
-- without end, and no fuel is enough for these.
--
-- Cmd: internal/irc/cmd/cmd.go. `handle` is Handle: it gives whether the message was a command,
-- the handlers that were called and the replies, and the registry afterwards. A handler answers or
-- panics. `dice` stands for the random numbers. Cmd/Levenshtein has the distance of the
-- suggestions.
--
-- Wrap: internal/format/wrap.go. Each round of WrapText takes a word, so the number of words is
-- fuel enough.
--
-- Sched: internal/sched/sched.go. The heap is a list in the order of Less, which is what
-- container/heap promises.
--
-- Keeper: internal/keeper/keeper.go, the process that holds the connection while the core
-- restarts. Each section under its lock is one function (`to_core`, `to_irc`, `set_irc`,
-- `attach_core`, `detach_core`, `drop_session`, `close_conns`, `goodbye`), which gives the writes
-- and closes that it does. Keeper/Reach has runs of them in any order, Keeper/Buffers and
-- Keeper/Lines what the two buffers hold. `pump_read` is a round of the read loop.
--
-- Pager: internal/irc/pager/pager.go. `event_msg` (EventMsg), `more` (More) and `tick`, which is
-- RunDue of the scheduler with the expiries as its callbacks. It stands on the functions of Sched;
-- Sched/Tags has what it needs of them. Pager/Pages is about the lines that wait, Pager/Owned,
-- Pager/Timers and Pager/Expiry are about the timers.
--
-- Rvf: modules/rvf/game.go, the wheel of fortune. A move gives `none` where the code panics.
-- Rvf/Moves and Rvf/Play are about the moves, Rvf/Money about what a letter earns.
--
-- Guard: modules/guard/guard.go and enforce.go, the spam guard. `on_seen` and `on_join` are its
-- hooks, `enforce` gives the lines that it sends. Guard/Strangers is about runs of messages and
-- joins.
--
-- Saver: internal/storage/saver.go. `mark` (Mark), `flush` (Flush up to the start of its
-- goroutine), `land` (the write of the goroutine), `complete` (the completion on the dispatcher)
-- and `flush_sync` (FlushSync). `Flight` says how far the goroutine is. Saver/Batches is about a
-- write, Saver/Kept and Saver/Runs about where a value is after each operation and in runs of
-- them, Saver/Sync about the last flush. The store is that in memory of
-- internal/storage/storage.go, with the namespaces that it accepts as an argument.
--
-- Karma: modules/karma/karma.go. `adjust` (adjust), `get` (get), `on_kick` (onKick) and
-- `karma_line`, the reply of onPrivmsg, and `why_karma` (whyKarma). Karma/Votes is about runs of
-- votes.
--
-- Core: internal/core/transport.go, core.go and builtins.go. Core/Link has a connection from its
-- first line on: `on_emit` is the callback Emit that connect sets, `on_welcomed` the callback
-- Welcome, `on_line` a line of the server through HandleLine, with what the session does to its
-- owner carried out in order. What a connection does are lines for the flood queue and events that
-- are dispatched to the bus and the commands; the handlers of these are not part of it, and the
-- autojoin channels are fixed over a run. Core/Held and Core/Order are about the messages that
-- arrive before the welcome. Core/Outgoing has `privmsg`, `send_raw`, `shutdown` and the changes
-- of the autojoin channels (`add_channel`, `remove_channel`), Core/Limits what holds of them.
-- `fold` stands for strings.EqualFold.
--
-- Markov: modules/markov/compact.go and markov.go. Markov/Trie has the chains (`Cnode`, `on_child`
-- for ensureChild, `add_path` for the counts along a window, `walk` of deriveReverse); Markov the
-- table of words, `windows`, `learn_tokens` (learnTokens) and `derive_reverse` (deriveReverse).
-- The chains of a dictionary are a map from the first word in the code and are kept in the order
-- of the words here. Counts are natural numbers. Markov/Counts says what a count counts,
-- Markov/Excess, Markov/Reverse, Markov/Grams and Markov/Lines are about the reverse dictionary,
-- Markov/Interning about the table.
--
-- Rss: modules/rss/ids.go, the short ids of the items. `next` is the allocator and runs on fuel: a
-- round is a counter, and 32768 rounds pass every counter. Rss/Ids/Digits is about `encode`
-- (encodeID), Rss/Ids/Alloc about the search.
--
-- Lastseen: modules/lastseen/lastseen.go. `on_privmsg` (onPrivmsg), with whether it saves as a
-- result, `newest` (the loop of lastAct), `last_act`, `last_command` (cbLast) and `time_ago`
-- (timeAgo). Lastseen/Heard is about runs of messages.
--
-- Auth: internal/auth/auth.go. bcrypt is two parameters, one that hashes and one that compares;
-- that a hash accepts its own password is a hypothesis. Whether the store accepts a write is an
-- argument.
--
-- Conf: internal/conf/conf.go. What strconv parses is a parameter. Conf/Values is about what Set
-- accepts, Conf/Overrides about the values of the file.
--
-- Not modelled: sockets, goroutines and logging (internal/irc/conn.go, and of internal/core the
-- dialling, the admin port, the metrics and the main loop), a connection of the core that another
-- has replaced, Postgres, the other modules under modules, the feeds of rss, loading and saving of
-- lastseen, the sentences, the stored shape, loading and saving of markov, GameMove of rvf, the
-- patterns of karma, its loading and saving, loading, status texts and the schedule of the saves
-- of guard, TruncateIRC, whose grapheme clusters are of a third-party package, a prefix of more
-- than 448 bytes in SplitMessage, handlers that change the command registry while it dispatches,
-- and OnPanic of the bus.
mod Prelude
pub mod Event
pub mod Keeper
pub mod Rvf
pub mod Pager
pub mod Guard
pub mod Saver
pub mod Karma
pub mod Rss
pub mod Markov
pub mod Lastseen
pub mod Core
pub mod Flood
pub mod Session
pub mod Wrap
pub mod Cmd
pub mod Bus
pub mod Sched
pub mod Auth
pub mod Conf
pub mod Irc
