-- ===== src/Session/KeyedLines.antt =====
-- internal/irc/session.go: the keys of the member maps, handler by handler.
use botje.Prelude.{
  ℕ, Text, List, [], ◌∷◌, ◌≡◌, refl, ◌∙◌, sym, ap, arith, lookup, ◌==◌, Bool-cases, Option-cases,
  inl, inr, text_eq, fields,
}
use botje.Event.{Event}
use botje.Irc.Parse.{Line, parse_line}
use botje.Irc.Params.{split_params}
use botje.Session.State.{Session, new_session, joined_at}
use botje.Session.Members.{add_names, swap_names}
use botje.Session.Handlers.{
  last_two, on_error, on_ping, on_privmsg, on_notice, on_mode, on_join, on_part, on_kick, on_invite,
  on_quit, on_nick, on_topic, on_rpl_topic, on_nam_reply, on_end_of_names, on_nick_in_use,
  on_welcome, on_motd,
}
use botje.Session.{
  Kind, error, ping, privmsg, notice, mode, join, part, kick, invite, quit, nick, topic, rpl_topic,
  nam_reply, end_of_names, nick_in_use, welcomes, motd_start, motd, other, dispatch, handle_line,
  handle_lines, handle_parsed, kind_of, event_of, with_sender,
}
use botje.Session.Keyed.{
  IsKeyed, put_channel-Keyed, update_channel-Keyed, set_topic-Keyed, each-Keyed,
  remove_channel-Keyed, add_member-Keyed, drop_member-Keyed, rename_member-Keyed, add_names-Keyed,
  swap_names-Keyed, empty-Keyed,
}

on_join-Keyed :
    (lower : Text → Text) (now : ℕ) (ev : Event) (ps : List Text) (s : Session)
    → IsKeyed lower s
    → IsKeyed lower (on_join lower now ev ps s).0
unfolding on_join
on_join-Keyed lower now ev (c ∷ r) s w = elim (Bool-cases ev.sender_me) [
  | inl e ↦ rw e (put_channel-Keyed lower c (joined_at now) s (empty-Keyed lower now) w)
  | inr e ↦ rw e (update_channel-Keyed lower c _ s (add_member-Keyed lower ev.sender.nick) w)
]
on_join-Keyed lower now ev [] s w = w

on_part-Keyed :
    (lower : Text → Text) (ev : Event) (ps : List Text) (s : Session)
    → IsKeyed lower s
    → IsKeyed lower (on_part lower ev ps s).0
unfolding on_part
on_part-Keyed lower ev (c ∷ r) s w = elim (Bool-cases ev.sender_me) [
  | inl e ↦ rw e (remove_channel-Keyed lower c s w)
  | inr e ↦ rw e (update_channel-Keyed lower c _ s (drop_member-Keyed lower ev.sender.nick) w)
]
on_part-Keyed lower ev [] s w = w

on_kick-Keyed :
    (lower : Text → Text) (ev : Event) (ps : List Text) (s : Session)
    → IsKeyed lower s
    → IsKeyed lower (on_kick lower ev ps s).0
unfolding on_kick
on_kick-Keyed lower ev (c ∷ t ∷ r) s w = elim (Bool-cases (t == s.nick)) [
  | inl e ↦ rw e w
  | inr e ↦ rw e (update_channel-Keyed lower c _ s (drop_member-Keyed lower t) w)
]
on_kick-Keyed lower ev _ s w = w

on_quit-Keyed :
    (lower : Text → Text) (ev : Event) (ps : Text) (s : Session)
    → IsKeyed lower s
    → IsKeyed lower (on_quit lower ev ps s).0
unfolding on_quit
on_quit-Keyed lower ev ps s w =
    each-Keyed lower _ s.channels (drop_member-Keyed lower ev.sender.nick) w

on_nick-Keyed :
    (lower : Text → Text) (ev : Event) (ps : List Text) (s : Session)
    → IsKeyed lower s
    → IsKeyed lower (on_nick lower ev ps s).0
unfolding on_nick
on_nick-Keyed lower ev ((c ∷ cs) ∷ r) s w =
    each-Keyed lower _ s.channels (rename_member-Keyed lower ev.sender.nick (c ∷ cs)) w
on_nick-Keyed lower ev _ s w = w

on_topic-Keyed :
    (lower : Text → Text) (ev : Event) (ps : List Text) (s : Session)
    → IsKeyed lower s
    → IsKeyed lower (on_topic ev ps s).0
unfolding on_topic
on_topic-Keyed lower ev (c ∷ t ∷ r) s w = set_topic-Keyed lower c t s w
on_topic-Keyed lower ev _ s w = w

on_rpl_topic-Keyed :
    (lower : Text → Text) (ps : List Text) (s : Session)
    → IsKeyed lower s
    → IsKeyed lower (on_rpl_topic ps s).0
unfolding on_rpl_topic
on_rpl_topic-Keyed lower (a ∷ c ∷ t ∷ r) s w = set_topic-Keyed lower c t s w
on_rpl_topic-Keyed lower _ s w = w

on_nam_reply-Keyed :
    (lower : Text → Text) (ps : List Text) (s : Session)
    → IsKeyed lower s
    → IsKeyed lower (on_nam_reply lower ps s).0
unfolding on_nam_reply
on_nam_reply-Keyed lower (a ∷ b ∷ c ∷ r) s w =
    update_channel-Keyed lower (last_two b c r).0 (add_names lower (fields (last_two b c r).1)) s
      (add_names-Keyed lower (fields (last_two b c r).1)) w
on_nam_reply-Keyed lower _ s w = w

on_end_of_names-Keyed :
    (lower : Text → Text) (ps : List Text) (s : Session)
    → IsKeyed lower s
    → IsKeyed lower (on_end_of_names ps s).0
unfolding on_end_of_names
on_end_of_names-Keyed lower (a ∷ c ∷ r) s w =
    update_channel-Keyed lower c swap_names s (swap_names-Keyed lower) w
on_end_of_names-Keyed lower _ s w = w

-- The handlers that leave the channels alone.
same_channels :
    (lower : Text → Text) (s t : Session)
    → t.channels ≡ s.channels
    → IsKeyed lower s
    → IsKeyed lower t
same_channels lower s t same w c st h = w c st (ap (lookup c) (sym same) ∙ h)

on_privmsg_channels : (ev : Event) (ps : List Text) (s : Session) → (on_privmsg ev ps s).0 ≡ s
unfolding on_privmsg
on_privmsg_channels ev (a ∷ b ∷ r) s = refl
on_privmsg_channels ev _ s = refl

on_notice_channels : (ev : Event) (ps : List Text) (s : Session) → (on_notice ev ps s).0 ≡ s
unfolding on_notice
on_notice_channels ev (a ∷ b ∷ r) s = refl
on_notice_channels ev _ s = refl

on_invite_channels : (ev : Event) (ps : List Text) (s : Session) → (on_invite ev ps s).0 ≡ s
unfolding on_invite
on_invite_channels ev (a ∷ b ∷ r) s = refl
on_invite_channels ev _ s = refl

on_mode_channels :
    (ev : Event) (ps : List Text) (s : Session) → (on_mode ev ps s).0.channels ≡ s.channels
unfolding on_mode
on_mode_channels ev (a ∷ b ∷ r) s = refl
on_mode_channels ev _ s = refl

on_welcome_channels : (s : Session) → (on_welcome s).0.channels ≡ s.channels
unfolding on_welcome
on_welcome_channels s = ground arith

sender_channels : (prefix : Text) (s : Session) → (with_sender prefix s).1.channels ≡ s.channels
unfolding with_sender
sender_channels [] s = refl
sender_channels (c ∷ cs) s = refl

module _ (lower : Text → Text) (now : ℕ) where
  dispatch-Keyed :
      (k : Kind) (ev : Event) (ps : Text) (s : Session)
      → IsKeyed lower s
      → IsKeyed lower (dispatch lower now k ev ps s).0
  unfolding dispatch on_error on_ping on_nick_in_use on_motd
  dispatch-Keyed error ev ps s w = w
  dispatch-Keyed ping ev ps s w = w
  dispatch-Keyed privmsg ev ps s w = rw on_privmsg_channels w
  dispatch-Keyed notice ev ps s w = rw on_notice_channels w
  dispatch-Keyed mode ev ps s w =
      same_channels lower s (on_mode ev (split_params ps) s).0
        (on_mode_channels ev (split_params ps) s) w
  dispatch-Keyed join ev ps s w = on_join-Keyed lower now ev (split_params ps) s w
  dispatch-Keyed part ev ps s w = on_part-Keyed lower ev (split_params ps) s w
  dispatch-Keyed kick ev ps s w = on_kick-Keyed lower ev (split_params ps) s w
  dispatch-Keyed invite ev ps s w = rw on_invite_channels w
  dispatch-Keyed quit ev ps s w = on_quit-Keyed lower ev ps s w
  dispatch-Keyed nick ev ps s w = on_nick-Keyed lower ev (split_params ps) s w
  dispatch-Keyed topic ev ps s w = on_topic-Keyed lower ev (split_params ps) s w
  dispatch-Keyed rpl_topic ev ps s w = on_rpl_topic-Keyed lower (split_params ps) s w
  dispatch-Keyed nam_reply ev ps s w = on_nam_reply-Keyed lower (split_params ps) s w
  dispatch-Keyed end_of_names ev ps s w = on_end_of_names-Keyed lower (split_params ps) s w
  dispatch-Keyed nick_in_use ev ps s w = w
  dispatch-Keyed welcomes ev ps s w =
      same_channels lower s (on_welcome s).0 (on_welcome_channels s) w
  dispatch-Keyed motd_start ev ps s w = w
  dispatch-Keyed motd ev ps s w = w
  dispatch-Keyed other ev ps s w = w

  handle_parsed-Keyed :
      (line : Line) (s : Session)
      → IsKeyed lower s
      → IsKeyed lower (handle_parsed lower now line s).0
  unfolding handle_parsed
  handle_parsed-Keyed line s w =
      let (sender, s') = with_sender line.prefix s in
      dispatch-Keyed (kind_of line.name) (event_of line sender s') line.params s'
        (same_channels lower s s' (sender_channels line.prefix s) w)

  handle_line-Keyed :
      (raw : Text) (s : Session) → IsKeyed lower s → IsKeyed lower (handle_line lower now raw s).0
  unfolding handle_line
  handle_line-Keyed raw s w = elim (Option-cases (parse_line raw)) [
    | inl e ↦ rw (e, handle_line) w
    | inr (line, e) ↦ rw (e, handle_line) (handle_parsed-Keyed line s w)
  ]

  handle_lines-Keyed_from :
      (raws : List Text) (s : Session)
      → IsKeyed lower s
      → IsKeyed lower (handle_lines lower now raws s).0
  unfolding handle_lines
  handle_lines-Keyed_from [] s w = w
  handle_lines-Keyed_from (raw ∷ rest) s w =
      handle_lines-Keyed_from rest (handle_line lower now raw s).0 (handle_line-Keyed raw s w)

  new_session-Keyed : (network own : Text) → IsKeyed lower (new_session network own)
  unfolding new_session lookup
  new_session-Keyed network own c st h = absurd (cc)

  -- From a new session on, whatever lines arrive, each tracked nick stands under its own lowered
  -- form in every channel, in the list in force and in the one that a NAMES burst is filling.
  pub handle_lines-Keyed :
      (raws : List Text) (network own : Text)
      → IsKeyed lower (handle_lines lower now raws (new_session network own)).0
  handle_lines-Keyed raws network own =
      handle_lines-Keyed_from raws (new_session network own) (new_session-Keyed network own)
