-- ===== src/Session/Tracking.antt =====
-- internal/irc/session.go: what `NickIn` answers after the handlers that change who is in a channel.
use botje.Prelude.{
  ℕ, Text, Bool, false, not, ◌&&◌, ◌||◌, List, ◌∷◌, ◌≡◌, refl, ◌∙◌, sym, ap, arith, lookup, remove,
  lookup-insert, lookup-remove, on_some, lookup-map_values, is_some, Option, none, some,
  if◌then◌else◌, ◌==◌, Bool-cases, Option-cases, inl, inr, text_eq, text_beq_iff,
}
use botje.Event.{Event}
use botje.Session.State.{Channel, Session, update_channel, put_channel, joined_at}
use botje.Session.Members.{add_member, drop_member, rename_member, nick_in, in_channel}
use botje.Session.Handlers.{on_join, on_part, on_quit, on_nick}

module _ (lower : Text → Text) where
  -- The nick is in the channel's list.
  abbrev pub holds : Text → Channel → Bool
  holds x st = is_some (lookup (lower x) st.members)

  abbrev in_found : Text → Option Channel → Bool
  in_found x none = false
  in_found x (some st) = holds x st

  nick_in-found :
      (c x : Text) (s : Session) → nick_in lower c x s ≡ in_found x (lookup c s.channels)
  unfolding nick_in
  nick_in-found c x s = ground arith

  holds-drop :
      (n x : Text) (st : Channel)
      → holds x (drop_member lower n st) ≡ (not (lower n == lower x) && holds x st)
  unfolding drop_member
  holds-drop n x st = rw lookup-remove (ground arith)

  holds-add :
      (n x : Text) (st : Channel)
      → holds x (add_member lower n st) ≡ (lower n == lower x || holds x st)
  unfolding add_member
  holds-add n x st = rw lookup-insert (ground arith)

  -- A QUIT takes the sender, in any letter case, out of every channel, and nobody else.
  pub nick_in-on_quit :
      (ev : Event) (params : Text) (s : Session) (c x : Text)
      → nick_in lower c x (on_quit lower ev params s).0
        ≡ (not (lower ev.sender.nick == lower x) && nick_in lower c x s)
  unfolding on_quit
  nick_in-on_quit ev params s c x =
      nick_in-found c x _
      ∙ ap (in_found x) (lookup-map_values _ c s.channels)
      ∙ each (lookup c s.channels)
      ∙ ap (λ b. not (lower ev.sender.nick == lower x) && b) (sym (nick_in-found c x s))
    where
      each :
          (o : Option Channel)
          → in_found x (on_some (drop_member lower ev.sender.nick) o)
            ≡ (not (lower ev.sender.nick == lower x) && in_found x o)
      each none = ground arith
      each (some st) = holds-drop ev.sender.nick x st

  holds-rename :
      (old new x : Text) (st : Channel)
      → holds x (rename_member lower old new st)
        ≡ (holds old st && lower new == lower x || not (lower old == lower x) && holds x st)
  unfolding rename_member
  holds-rename old new x st = elim (Bool-cases (holds old st)) [
    | inl e ↦ rw e (holds-add new x (drop_member lower old st) ∙ rw holds-drop (ground arith))
    | inr e ↦ rw e (ground (arith, e, text_beq_iff (lower old) (lower x)))
  ]

  -- After a NICK with a nick that is not empty, the new nick is in exactly the channels where it or
  -- the old one was, the old one is in none (unless the two differ in letter case only), and nobody
  -- else moves.
  pub nick_in-on_nick :
      (ev : Event) (d : ℕ) (ds : Text) (rest : List Text) (s : Session) (c x : Text)
      → nick_in lower c x (on_nick lower ev ((d ∷ ds) ∷ rest) s).0 ≡ (
          nick_in lower c ev.sender.nick s && lower (d ∷ ds) == lower x
          || not (lower ev.sender.nick == lower x) && nick_in lower c x s)
  unfolding on_nick
  nick_in-on_nick ev d ds rest s c x =
      nick_in-found c x _
      ∙ ap (in_found x) (lookup-map_values _ c s.channels)
      ∙ rw nick_in-found (rw nick_in-found (each (lookup c s.channels)))
    where
      each :
          (o : Option Channel)
          → in_found x (on_some (rename_member lower ev.sender.nick (d ∷ ds)) o) ≡ (
              in_found ev.sender.nick o && lower (d ∷ ds) == lower x
              || not (lower ev.sender.nick == lower x) && in_found x o)
      each none = ground arith
      each (some st) = holds-rename ev.sender.nick (d ∷ ds) x st

  lookup-update_channel :
      (name c : Text) (f : Channel → Channel) (s : Session)
      → lookup c (update_channel name f s).channels
        ≡ (if name == c then on_some f (lookup name s.channels) else lookup c s.channels)
  unfolding update_channel
  lookup-update_channel name c f s = elim (Option-cases (lookup name s.channels)) [
    | inl e ↦ rw e (ground (arith, e, text_beq_iff name c))
    | inr (st, e) ↦ rw e (lookup-insert name c (f st) s.channels)
  ]

  -- What `NickIn` answers where one channel's list is rewritten by `f`.
  nick_in-update :
      (name : Text) (f : Channel → Channel) (s t : Session) (c x : Text)
      → t.channels ≡ (update_channel name f s).channels
      → nick_in lower c x t ≡ (
          if name == c
          then in_found x (on_some f (lookup name s.channels))
          else nick_in lower c x s)
  nick_in-update name f s t c x same =
      nick_in-found c x t
      ∙ ap (λ m. in_found x (lookup c m)) same
      ∙ rw (lookup-update_channel, nick_in-found) (ground arith)

  -- A JOIN of somebody else adds that nick to the channel if the bot is in it, and changes nothing
  -- else.
  pub nick_in-on_join :
      (now : ℕ) (ev : Event) (channel : Text) (rest : List Text) (s : Session) (c x : Text)
      → ev.sender_me ≡ false
      → nick_in lower c x (on_join lower now ev (channel ∷ rest) s).0
        ≡ (channel == c && in_channel c s && lower ev.sender.nick == lower x || nick_in lower c x s)
  unfolding on_join in_channel
  nick_in-on_join now ev channel rest s c x other =
      nick_in-update channel (add_member lower ev.sender.nick) s _ c x (
        ap
          (λ b.
            (if b
              then put_channel channel (joined_at now) s
              else update_channel channel (add_member lower ev.sender.nick) s).channels)
          other)
      ∙ rw nick_in-found (each (lookup channel s.channels) refl)
    where
      each :
          (o : Option Channel)
          → lookup channel s.channels ≡ o
          → (if channel == c
              then in_found x
                  (on_some (add_member lower ev.sender.nick) (lookup channel s.channels))
              else in_found x (lookup c s.channels))
            ≡ (channel == c && is_some (lookup c s.channels) && lower ev.sender.nick == lower x
                || in_found x (lookup c s.channels))
      each none e = ground (arith, text_beq_iff channel c)
      each (some st) e = ground (arith, text_beq_iff channel c, holds-add ev.sender.nick x st)

  -- A PART of somebody else takes that nick out of that channel, and changes nothing else.
  pub nick_in-on_part :
      (ev : Event) (channel : Text) (rest : List Text) (s : Session) (c x : Text)
      → ev.sender_me ≡ false
      → nick_in lower c x (on_part lower ev (channel ∷ rest) s).0
        ≡ (not (channel == c && lower ev.sender.nick == lower x) && nick_in lower c x s)
  unfolding on_part
  nick_in-on_part ev channel rest s c x other =
      nick_in-update channel (drop_member lower ev.sender.nick) s _ c x (
        ap
          (λ b.
            (if b
              then record s { channels = remove channel s.channels }
              else update_channel channel (drop_member lower ev.sender.nick) s).channels)
          other)
      ∙ rw nick_in-found (each (lookup channel s.channels) refl)
    where
      each :
          (o : Option Channel)
          → lookup channel s.channels ≡ o
          → (if channel == c
              then in_found x
                  (on_some (drop_member lower ev.sender.nick) (lookup channel s.channels))
              else in_found x (lookup c s.channels))
            ≡ (not (channel == c && lower ev.sender.nick == lower x)
                && in_found x (lookup c s.channels))
      each none e = ground (arith, text_beq_iff channel c)
      each (some st) e = ground (arith, text_beq_iff channel c, holds-drop ev.sender.nick x st)
