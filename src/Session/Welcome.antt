-- ===== src/Session/Welcome.antt =====
-- internal/irc/session.go: the `Welcome` callback over the life of a session.
use botje.Prelude.{
  ℕ, suc, ◌+◌, Text, true, List, [], ◌∷◌, ◌++◌, ◌≡◌, refl, ◌∙◌, ap, arith, if◌then◌else◌,
  Option-cases, Bool-cases, sym, false, ◌⊎◌, inl, inr, text_eq,
}
use botje.Event.{Event}
use botje.Irc.Parse.{Line, parse_line}
use botje.Irc.Params.{split_params}
use botje.Session.State.{Output, send, send_high, emit, welcome, Channel, Session, update_channel}
use botje.Session.Handlers.{
  Step, on_error, on_ping, on_privmsg, on_notice, on_mode, on_join, on_part, on_kick, on_invite,
  on_quit, on_nick, on_topic, on_rpl_topic, on_nam_reply, on_end_of_names, on_nick_in_use,
  on_welcome, on_motd,
}
use botje.Session.{
  Kind, error, ping, privmsg, notice, mode, join, part, kick, invite, quit, nick, topic, rpl_topic,
  nam_reply, end_of_names, nick_in_use, welcomes, motd_start, motd, other, dispatch, handle_line,
  handle_lines, handle_parsed, kind_of, event_of, with_sender,
}

-- How often `Welcome` is called.
abbrev pub count_welcome : List Output → ℕ
count_welcome [] = 0
count_welcome (welcome ∷ out) = suc (count_welcome out)
count_welcome (_ ∷ out) = count_welcome out

count_welcome-append :
    (xs ys : List Output) → count_welcome (xs ++ ys) ≡ count_welcome xs + count_welcome ys
count_welcome-append [] ys = omega arith
count_welcome-append (welcome ∷ xs) ys = omega (arith, count_welcome-append xs ys)
count_welcome-append (send t ∷ xs) ys = count_welcome-append xs ys
count_welcome-append (send_high t ∷ xs) ys = count_welcome-append xs ys
count_welcome-append (emit e ∷ xs) ys = count_welcome-append xs ys

-- The calls still to come: one, until the registration is confirmed.
abbrev pub owed : Session → ℕ
owed s = if s.welcomed then 0 else 1

-- A step that calls nothing and confirms nothing.
abbrev Keeps : Session → Step → Type 0
Keeps s r =
    (count_welcome r.1 ≡ 0) × (r.0.welcomed ≡ s.welcomed) × (r.0.has_welcome ≡ s.has_welcome)

-- A step that confirms, and then does nothing but call.
abbrev Confirms : Session → Step → Type 0
Confirms s r =
    (s.welcomed ≡ false)
    × (r.0.welcomed ≡ true)
    × (r.0.has_welcome ≡ s.has_welcome)
    × (r.1 ≡ welcome ∷ [])

abbrev pub Pays : Session → Step → Type 0
Pays s r = Keeps s r ⊎ Confirms s r

update_channel-Keeps :
    (name : Text) (f : Channel → Channel) (s : Session) (out : List Output)
    → count_welcome out ≡ 0
    → Keeps s (update_channel name f s, out)
unfolding update_channel
update_channel-Keeps name f s out h = ground arith

on_error-Keeps : (ev : Event) (ps : List Text) (s : Session) → Keeps s (on_error ev ps s)
unfolding on_error
on_error-Keeps ev ps s = (refl, refl, refl)

on_ping-Keeps : (ps : List Text) (s : Session) → Keeps s (on_ping ps s)
unfolding on_ping
on_ping-Keeps ps s = (refl, refl, refl)

on_privmsg-Keeps : (ev : Event) (ps : List Text) (s : Session) → Keeps s (on_privmsg ev ps s)
unfolding on_privmsg
on_privmsg-Keeps ev (a ∷ b ∷ r) s = (refl, refl, refl)
on_privmsg-Keeps ev _ s = (refl, refl, refl)

on_join-Keeps :
    (lower : Text → Text) (now : ℕ) (ev : Event) (ps : List Text) (s : Session)
    → Keeps s (on_join lower now ev ps s)
unfolding on_join
on_join-Keeps lower now ev (a ∷ r) s = ground arith
on_join-Keeps lower now ev [] s = (refl, refl, refl)

on_notice-Keeps : (ev : Event) (ps : List Text) (s : Session) → Keeps s (on_notice ev ps s)
unfolding on_notice
on_notice-Keeps ev (a ∷ b ∷ r) s = (refl, refl, refl)
on_notice-Keeps ev _ s = (refl, refl, refl)

on_mode-Keeps : (ev : Event) (ps : List Text) (s : Session) → Keeps s (on_mode ev ps s)
unfolding on_mode
on_mode-Keeps ev (a ∷ b ∷ r) s = (refl, refl, refl)
on_mode-Keeps ev _ s = (refl, refl, refl)

on_invite-Keeps : (ev : Event) (ps : List Text) (s : Session) → Keeps s (on_invite ev ps s)
unfolding on_invite
on_invite-Keeps ev (a ∷ b ∷ r) s = (refl, refl, refl)
on_invite-Keeps ev _ s = (refl, refl, refl)

on_topic-Keeps : (ev : Event) (ps : List Text) (s : Session) → Keeps s (on_topic ev ps s)
unfolding on_topic
on_topic-Keeps ev (a ∷ b ∷ r) s = (refl, refl, refl)
on_topic-Keeps ev _ s = (refl, refl, refl)

on_part-Keeps :
    (lower : Text → Text) (ev : Event) (ps : List Text) (s : Session)
    → Keeps s (on_part lower ev ps s)
unfolding on_part
on_part-Keeps lower ev (a ∷ r) s = ground arith
on_part-Keeps lower ev [] s = (refl, refl, refl)

on_kick-Keeps :
    (lower : Text → Text) (ev : Event) (ps : List Text) (s : Session)
    → Keeps s (on_kick lower ev ps s)
unfolding on_kick
on_kick-Keeps lower ev (a ∷ b ∷ r) s = ground arith
on_kick-Keeps lower ev _ s = (refl, refl, refl)

on_quit-Keeps :
    (lower : Text → Text) (ev : Event) (ps : Text) (s : Session) → Keeps s (on_quit lower ev ps s)
unfolding on_quit
on_quit-Keeps lower ev ps s = (refl, refl, refl)

on_nick-Keeps :
    (lower : Text → Text) (ev : Event) (ps : List Text) (s : Session)
    → Keeps s (on_nick lower ev ps s)
unfolding on_nick
on_nick-Keeps lower ev ((c ∷ cs) ∷ r) s = (refl, refl, refl)
on_nick-Keeps lower ev _ s = (refl, refl, refl)

on_rpl_topic-Keeps : (ps : List Text) (s : Session) → Keeps s (on_rpl_topic ps s)
unfolding on_rpl_topic
on_rpl_topic-Keeps (a ∷ b ∷ c ∷ r) s = (refl, refl, refl)
on_rpl_topic-Keeps _ s = (refl, refl, refl)

on_nam_reply-Keeps :
    (lower : Text → Text) (ps : List Text) (s : Session) → Keeps s (on_nam_reply lower ps s)
unfolding on_nam_reply
on_nam_reply-Keeps lower (a ∷ b ∷ c ∷ r) s = ground arith
on_nam_reply-Keeps lower _ s = (refl, refl, refl)

on_end_of_names-Keeps : (ps : List Text) (s : Session) → Keeps s (on_end_of_names ps s)
unfolding on_end_of_names
on_end_of_names-Keeps (a ∷ b ∷ r) s = ground arith
on_end_of_names-Keeps _ s = (refl, refl, refl)

on_motd-Keeps : (ps : List Text) (s : Session) → Keeps s (on_motd ps s)
unfolding on_motd
on_motd-Keeps ps s = (refl, refl, refl)

on_nick_in_use-Keeps : (s : Session) → Keeps s (on_nick_in_use s)
unfolding on_nick_in_use
on_nick_in_use-Keeps s = (refl, refl, refl)

on_welcome-Pays : (s : Session) → s.has_welcome ≡ true → Pays s (on_welcome s)
unfolding on_welcome
on_welcome-Pays s set = elim (Bool-cases s.welcomed) [
  | inl done ↦ rw done (inl (refl, refl, refl))
  | inr before ↦ rw before (rw set (inr (refl, refl, refl, refl)))
]

Pays-owed :
    (s : Session) (r : Step)
    → Pays s r
    → (count_welcome r.1 + owed r.0 ≡ owed s) × (r.0.has_welcome ≡ s.has_welcome)
Pays-owed s r (inl (quiet, same, set)) =
    let same_owed = ap {B = ℕ} (λ b. if b then 0 else 1) same in
    (omega (arith, quiet, same_owed), set)
Pays-owed s r (inr (before, after, set, calls)) = (rw calls (rw after (rw before refl)), set)

module _ (lower : Text → Text) (now : ℕ) where
  dispatch-Pays :
      (k : Kind) (ev : Event) (ps : Text) (s : Session)
      → s.has_welcome ≡ true
      → Pays s (dispatch lower now k ev ps s)
  unfolding dispatch
  dispatch-Pays error ev ps s set = inl (on_error-Keeps ev (split_params ps) s)
  dispatch-Pays ping ev ps s set = inl (on_ping-Keeps (split_params ps) s)
  dispatch-Pays privmsg ev ps s set = inl (on_privmsg-Keeps ev (split_params ps) s)
  dispatch-Pays notice ev ps s set = inl (on_notice-Keeps ev (split_params ps) s)
  dispatch-Pays mode ev ps s set = inl (on_mode-Keeps ev (split_params ps) s)
  dispatch-Pays join ev ps s set = inl (on_join-Keeps lower now ev (split_params ps) s)
  dispatch-Pays part ev ps s set = inl (on_part-Keeps lower ev (split_params ps) s)
  dispatch-Pays kick ev ps s set = inl (on_kick-Keeps lower ev (split_params ps) s)
  dispatch-Pays invite ev ps s set = inl (on_invite-Keeps ev (split_params ps) s)
  dispatch-Pays quit ev ps s set = inl (on_quit-Keeps lower ev ps s)
  dispatch-Pays nick ev ps s set = inl (on_nick-Keeps lower ev (split_params ps) s)
  dispatch-Pays topic ev ps s set = inl (on_topic-Keeps ev (split_params ps) s)
  dispatch-Pays rpl_topic ev ps s set = inl (on_rpl_topic-Keeps (split_params ps) s)
  dispatch-Pays nam_reply ev ps s set = inl (on_nam_reply-Keeps lower (split_params ps) s)
  dispatch-Pays end_of_names ev ps s set = inl (on_end_of_names-Keeps (split_params ps) s)
  dispatch-Pays nick_in_use ev ps s set = inl (on_nick_in_use-Keeps s)
  dispatch-Pays welcomes ev ps s set = on_welcome-Pays s set
  dispatch-Pays motd_start ev ps s set = inl (refl, refl, refl)
  dispatch-Pays motd ev ps s set = inl (on_motd-Keeps (split_params ps) s)
  dispatch-Pays other ev ps s set = inl (refl, refl, refl)

  sender_keeps :
      (prefix : Text) (s : Session)
      → ((with_sender prefix s).1.welcomed ≡ s.welcomed)
        × ((with_sender prefix s).1.has_welcome ≡ s.has_welcome)
  unfolding with_sender
  sender_keeps [] s = (refl, refl)
  sender_keeps (c ∷ cs) s = (refl, refl)

  handle_parsed-Pays :
      (line : Line) (s : Session) → s.has_welcome ≡ true → Pays s (handle_parsed lower now line s)
  unfolding handle_parsed
  handle_parsed-Pays line s set =
      let (sender, s') = with_sender line.prefix s in
      let (same, has) = sender_keeps line.prefix s in
      elim (dispatch-Pays (kind_of line.name) (event_of line sender s') line.params s'
        (has ∙ set)) [
          | inl (quiet, later, still) ↦ inl (quiet, later ∙ same, still ∙ has)
          | inr (before, after, still, calls) ↦ inr (sym same ∙ before, after, still ∙ has, calls)
        ]

  pub handle_line-Pays :
      (raw : Text) (s : Session) → s.has_welcome ≡ true → Pays s (handle_line lower now raw s)
  unfolding handle_line
  handle_line-Pays raw s set = elim (Option-cases (parse_line raw)) [
    | inl e ↦ rw (e, handle_line) (inl (refl, refl, refl))
    | inr (line, e) ↦ rw (e, handle_line) (handle_parsed-Pays line s set)
  ]

  -- Over any lines, a session with a callback calls it exactly once if they confirm a registration
  -- that was not confirmed before, and else not at all: what is owed before is what is called and
  -- what is owed after.
  pub handle_lines-owed :
      (raws : List Text) (s : Session)
      → s.has_welcome ≡ true
      → count_welcome (handle_lines lower now raws s).1 + owed (handle_lines lower now raws s).0
        ≡ owed s
  unfolding handle_lines
  handle_lines-owed [] s set = omega arith
  handle_lines-owed (raw ∷ rest) s set =
      let (s', out) = handle_line lower now raw s in
      let paid = Pays-owed s (handle_line lower now raw s) (handle_line-Pays raw s set) in
      let later = handle_lines-owed rest s' (paid.1 ∙ set) in
      omega (arith, paid.0, later, count_welcome-append out (handle_lines lower now rest s').1)
