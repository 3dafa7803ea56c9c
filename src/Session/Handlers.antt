-- ===== src/Session/Handlers.antt =====
-- internal/irc/session.go: the handlers of inbound lines. Each takes the event that `HandleLine` has
-- begun and the split params, and gives the session and what it does to its owner.
use botje.Prelude.{
  ℕ, Text, codes, Bool, true, false, not, ◌||◌, List, [], ◌∷◌, ◌++◌, ◌==◌, nat_eq, text_eq, remove,
  map_values, if◌then◌else◌, fields, has_prefix, trim_prefix, join, take, drop, is_space, span,
  contains,
}
use botje.Event.{Event}
use botje.Session.State.{
  Output, send, send_high, emit, welcome, Session, put_channel, joined_at, update_channel,
  set_topic,
}
use botje.Session.Members.{add_member, drop_member, rename_member, add_names, swap_names}

abbrev pub Step : Type 0
Step = Session × List Output

-- `s.emit(name, ev)`
abbrev pub emitting : Text → Event → List Output
emitting name ev = emit (record ev { name = name }) ∷ []

unfoldable pub on_error : Event → List Text → Session → Step
on_error ev ps s = (
  s,
  emit (record ev { name = codes "IRC_ERROR"; msg = join (codes ", ") ps })
      ∷ send (codes "QUIT :I can't deal with ERRORs, Bye bye!")
      ∷ [],
)

-- `strings.ContainsAny(magic, " \t:")`
needs_colon : Text → Bool
needs_colon magic = contains b' ' magic || contains 9 magic || contains b':' magic

unfoldable pub pong : List Text → Text
unfolding needs_colon
pong [] = codes "PONG"
pong ([] ∷ ps) = codes "PONG"
pong ((c ∷ magic) ∷ ps) =
    codes "PONG" ++ codes " " ++ (if needs_colon (c ∷ magic) then b':' ∷ c ∷ magic else c ∷ magic)

unfoldable pub on_ping : List Text → Session → Step
unfolding pong
on_ping ps s = (s, send_high (pong ps) ∷ [])

unfoldable pub on_privmsg : Event → List Text → Session → Step
on_privmsg ev (target ∷ msg ∷ args) s =
    let mine = target == s.nick in
    (
      s,
      emit (record ev {
        name = codes "IRC_PRIVMSG";
        target_me = if mine then true else ev.target_me;
        query = if mine then true else ev.query;
        channel = if mine then ev.sender.nick else target;
        msg = msg;
        args = args;
      })
          ∷ [],
    )
on_privmsg ev _ s = (s, [])

unfoldable pub on_notice : Event → List Text → Session → Step
on_notice ev (target ∷ msg ∷ args) s = (
  s,
  emit (record ev {
    name = codes "IRC_NOTICE";
    channel = target;
    target_me = target == s.nick;
    msg = msg;
  })
      ∷ [],
)
on_notice ev _ s = (s, [])

unfoldable pub on_mode : Event → List Text → Session → Step
on_mode ev (target ∷ mode ∷ args) s =
    let mine = target == s.nick in
    (
      record s { mode = if mine then mode else s.mode },
      emit (record ev {
        name = codes "IRC_MODE";
        channel = target;
        target_me = mine;
        mode = mode;
        args = args;
      })
          ∷ [],
    )
on_mode ev _ s = (s, [])

unfoldable pub on_invite : Event → List Text → Session → Step
on_invite ev (nick ∷ channel ∷ rest) s =
    (s, emit (record ev { name = codes "IRC_INVITE"; channel = channel; target_me = true }) ∷ [])
on_invite ev _ s = (s, [])

unfoldable pub on_topic : Event → List Text → Session → Step
unfolding set_topic
on_topic ev (channel ∷ topic ∷ rest) s = (
  set_topic channel topic s,
  emit (record ev { name = codes "IRC_TOPIC"; channel = channel; topic = topic }) ∷ [],
)
on_topic ev _ s = (s, [])

unfoldable pub on_rpl_topic : List Text → Session → Step
unfolding set_topic
on_rpl_topic (me ∷ channel ∷ topic ∷ rest) s = (set_topic channel topic s, [])
on_rpl_topic _ s = (s, [])

unfoldable pub on_end_of_names : List Text → Session → Step
unfolding update_channel swap_names
on_end_of_names (me ∷ channel ∷ rest) s = (update_channel channel swap_names s, [])
on_end_of_names _ s = (s, [])

-- The last param but one, and the last, of three or more.
unfoldable pub last_two : Text → Text → List Text → Text × Text
last_two a b [] = (a, b)
last_two a b (c ∷ cs) = last_two b c cs

-- RPL_MOTD: the last param and a line end.
motd_line : List Text → Text
motd_line [] = []
motd_line (p ∷ []) = p ++ 10 ∷ []
motd_line (p ∷ q ∷ ps) = motd_line (q ∷ ps)

unfoldable pub on_motd : List Text → Session → Step
unfolding motd_line
on_motd ps s = (record s { motd = s.motd ++ motd_line ps }, [])

-- ERR_NICKNAMEINUSE
unfoldable pub on_nick_in_use : Session → Step
on_nick_in_use s =
    let nick = s.nick ++ codes "_" in (record s { nick = nick }, send (codes "NICK " ++ nick) ∷ [])

-- RPL_WELCOME and ERR_ALREADYREGISTRED
unfoldable pub on_welcome : Session → Step
on_welcome s =
    if s.welcomed
    then (s, [])
    else (record s { welcomed = true }, if s.has_welcome then welcome ∷ [] else [])

has_other : ℕ → Text → Bool
has_other c [] = false
has_other c (d ∷ ds) = not (d == c) || has_other c ds

-- `.+` takes what follows the white space, or what of the white space is no newline.
is_split : Text → Text → Text → Bool
unfolding has_other
is_split [] blanks more = false
is_split (c ∷ w) [] more = false
is_split (c ∷ w) (d ∷ bs) [] = has_other 10 bs
is_split (c ∷ w) (d ∷ bs) (m ∷ ms) = true

-- `^\S+\s+.+`
unfoldable pub is_netsplit : Text → Bool
unfolding is_split
is_netsplit msg =
    let (word, rest) = span (λ c. not (is_space c)) msg in
    let (blanks, more) = span is_space rest in is_split word blanks more

-- `strings.TrimLeft(msg, " \t")`
trim_blanks : Text → Text
trim_blanks [] = []
trim_blanks (c ∷ cs) = let rest = trim_blanks cs in if c == b' ' || c == 9 then rest else c ∷ cs

module _ (lower : Text → Text) where
  unfoldable pub on_join : ℕ → Event → List Text → Session → Step
  unfolding add_member update_channel
  on_join now ev (channel ∷ rest) s = (
    if ev.sender_me
        then put_channel channel (joined_at now) s
        else update_channel channel (add_member lower ev.sender.nick) s,
    emit (record ev {
      name = codes "IRC_JOIN";
      target_me = if ev.sender_me then true else ev.target_me;
      channel = channel;
    })
        ∷ [],
  )
  on_join now ev [] s = (s, [])

  unfoldable pub on_part : Event → List Text → Session → Step
  unfolding drop_member update_channel
  on_part ev (channel ∷ rest) s = (
    if ev.sender_me
        then record s { channels = remove channel s.channels }
        else update_channel channel (drop_member lower ev.sender.nick) s,
    emit (record ev { name = codes "IRC_PART"; channel = channel }) ∷ [],
  )
  on_part ev [] s = (s, [])

  unfoldable pub on_kick : Event → List Text → Session → Step
  unfolding drop_member update_channel
  on_kick ev (channel ∷ target ∷ rest) s =
      let mine = target == s.nick in
      (
        if mine then s else update_channel channel (drop_member lower target) s,
        emit (record ev {
          name = codes "IRC_KICK";
          target_me = mine;
          channel = channel;
          target = target;
          reason = elim rest [ [] ↦ [] | reason ∷ more ↦ reason ];
        })
            ∷ [],
      )
  on_kick ev _ s = (s, [])

  -- What a quit says, and whether it counts as a netsplit.
  unfoldable pub quit_reason : Text → Text × Bool
  unfolding is_netsplit trim_blanks
  quit_reason msg =
      let low = lower msg in
      if has_prefix (codes "quit:") low
      then (trim_blanks (drop 5 msg), false)
      else if has_prefix (codes "ping timeout") low
      then (take 12 msg, false)
      else if has_prefix (codes "eof") low
      then (msg, false)
      else (msg, is_netsplit msg)

  unfoldable pub on_quit : Event → Text → Session → Step
  unfolding drop_member quit_reason
  on_quit ev params s =
      let (msg, split) = quit_reason (trim_prefix (codes ":") params) in
      (
        record s { channels = map_values (drop_member lower ev.sender.nick) s.channels },
        emit (record ev {
          name = codes "IRC_QUIT";
          msg = msg;
          net_split = if split then true else ev.net_split;
        })
            ∷ [],
      )

  unfoldable pub on_nick : Event → List Text → Session → Step
  unfolding rename_member
  on_nick ev ((c ∷ cs) ∷ rest) s = (
    record s {
      nick = if ev.sender_me then c ∷ cs else s.nick;
      channels = map_values (rename_member lower ev.sender.nick (c ∷ cs)) s.channels;
    },
    [],
  )
  on_nick ev _ s = (s, [])

  unfoldable pub on_nam_reply : List Text → Session → Step
  unfolding add_names update_channel last_two
  on_nam_reply (a ∷ b ∷ c ∷ rest) s =
      let (channel, names) = last_two b c rest in
      (update_channel channel (add_names lower (fields names)) s, [])
  on_nam_reply _ s = (s, [])
