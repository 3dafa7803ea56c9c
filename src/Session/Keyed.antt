-- ===== src/Session/Keyed.antt =====
-- internal/irc/session.go: the keys of the member maps, for the changes that handlers make.
use botje.Prelude.{
  ℕ, Text, Map, List, [], ◌∷◌, ◌≡◌, subst, arith, lookup, insert, remove, map_values, lookup-insert,
  lookup-remove, lookup-map_values, is_some, some, ◌==◌, Bool-cases, Option-cases, inl, inr,
  text_eq, text_beq_iff,
}
use botje.Session.State.{Channel, Session, update_channel, set_topic, put_channel, joined_at}
use botje.Session.Members.{
  add_member, drop_member, rename_member, add_pending, add_names, trim_status, swap_names,
}

module _ (lower : Text → Text) where
  -- Each nick stands under its own lowered form.
  abbrev pub WellKeyed : Map Text Text → Type 0
  WellKeyed m = (k n : Text) → lookup k m ≡ some n → lower n ≡ k

  pub record ChannelKeyed (st : Channel) : Type 0 where
    pub members_keyed : WellKeyed st.members
    pub pending_keyed : WellKeyed st.pending

  abbrev pub IsKeyed : Session → Type 0
  IsKeyed s = (c : Text) (st : Channel) → lookup c s.channels ≡ some st → ChannelKeyed st

  insert-WellKeyed : (n : Text) (m : Map Text Text) → WellKeyed m → WellKeyed (insert (lower n) n m)
  insert-WellKeyed n m w k x h =
      ground (arith, lookup-insert (lower n) k n m, text_beq_iff (lower n) k, w k x)

  remove-WellKeyed : (j : Text) (m : Map Text Text) → WellKeyed m → WellKeyed (remove j m)
  remove-WellKeyed j m w k x h = ground (arith, lookup-remove j k m, w k x)

  pub nil-WellKeyed : WellKeyed []
  unfolding lookup
  nil-WellKeyed k n h = cc

  pub add_member-Keyed :
      (n : Text) (st : Channel) → ChannelKeyed st → ChannelKeyed (add_member lower n st)
  unfolding add_member
  add_member-Keyed n st c = record {
    members_keyed = insert-WellKeyed n st.members c.members_keyed;
    pending_keyed = c.pending_keyed;
  }

  pub drop_member-Keyed :
      (n : Text) (st : Channel) → ChannelKeyed st → ChannelKeyed (drop_member lower n st)
  unfolding drop_member
  drop_member-Keyed n st c = record {
    members_keyed = remove-WellKeyed (lower n) st.members c.members_keyed;
    pending_keyed = c.pending_keyed;
  }

  pub rename_member-Keyed :
      (old new : Text) (st : Channel)
      → ChannelKeyed st
      → ChannelKeyed (rename_member lower old new st)
  unfolding rename_member
  rename_member-Keyed old new st c = elim (Bool-cases (is_some (lookup (lower old) st.members))) [
    | inl e ↦ rw e (add_member-Keyed new _ (drop_member-Keyed old st c))
    | inr e ↦ rw e c
  ]

  pub add_names-Keyed :
      (ns : List Text) (st : Channel) → ChannelKeyed st → ChannelKeyed (add_names lower ns st)
  unfolding add_names
  add_names-Keyed [] st c = c
  add_names-Keyed (n ∷ ns) st c = add_names-Keyed ns _ (add_pending-Keyed (trim_status n) st c)
    where
      add_pending-Keyed :
          (n : Text) (st : Channel) → ChannelKeyed st → ChannelKeyed (add_pending lower n st)
      add_pending-Keyed [] st c = c
      add_pending-Keyed (x ∷ xs) st c = record {
        members_keyed = c.members_keyed;
        pending_keyed = insert-WellKeyed (x ∷ xs) st.pending c.pending_keyed;
      }

  pub swap_names-Keyed : (st : Channel) → ChannelKeyed st → ChannelKeyed (swap_names st)
  unfolding swap_names
  swap_names-Keyed st c = record { members_keyed = c.pending_keyed; pending_keyed = nil-WellKeyed }

  pub empty-Keyed : (now : ℕ) → ChannelKeyed (joined_at now)
  empty-Keyed now = record { members_keyed = nil-WellKeyed; pending_keyed = nil-WellKeyed }

  pub put_channel-Keyed :
      (name : Text) (st : Channel) (s : Session)
      → ChannelKeyed st
      → IsKeyed s
      → IsKeyed (put_channel name st s)
  put_channel-Keyed name st s c w k x h = elim (Bool-cases (name == k)) [
    | inl e ↦ subst ChannelKeyed (ground (arith, h, lookup-insert name k st s.channels)) c
    | inr e ↦ w k x (ground (arith, h, lookup-insert name k st s.channels))
  ]

  pub update_channel-Keyed :
      (name : Text) (f : Channel → Channel) (s : Session)
      → ((st : Channel) → ChannelKeyed st → ChannelKeyed (f st))
      → IsKeyed s
      → IsKeyed (update_channel name f s)
  unfolding update_channel
  update_channel-Keyed name f s keeps w = elim (Option-cases (lookup name s.channels)) [
    | inl e ↦ rw e w
    | inr (st, e) ↦ rw e (put_channel-Keyed name (f st) s (keeps st (w name st e)) w)
  ]

  pub set_topic-Keyed : (name t : Text) (s : Session) → IsKeyed s → IsKeyed (set_topic name t s)
  unfolding set_topic
  set_topic-Keyed name t s w = elim (Option-cases (lookup name s.channels)) [
    | inl e ↦ rw e (
        put_channel-Keyed name _ s
          (record { members_keyed = nil-WellKeyed; pending_keyed = nil-WellKeyed }) w)
    | inr (st, e) ↦ rw e (
        put_channel-Keyed name _ s
          (record {
            members_keyed = (w name st e).members_keyed;
            pending_keyed = (w name st e).pending_keyed;
          })
          w)
  ]

  pub each-Keyed :
      (f : Channel → Channel) (m : Map Text Channel)
      → ((st : Channel) → ChannelKeyed st → ChannelKeyed (f st))
      → ((c : Text) (st : Channel) → lookup c m ≡ some st → ChannelKeyed st)
      → (c : Text) (st : Channel) → lookup c (map_values f m) ≡ some st
      → ChannelKeyed st
  each-Keyed f m keeps w c st h = elim (Option-cases (lookup c m)) [
    | inl e ↦ absurd (ground (arith, lookup-map_values f c m))
    | inr (x, e) ↦
        subst ChannelKeyed (ground (arith, h, lookup-map_values f c m)) (keeps x (w c x e))
  ]

  pub remove_channel-Keyed :
      (name : Text) (s : Session)
      → IsKeyed s
      → IsKeyed (record s { channels = remove name s.channels })
  remove_channel-Keyed name s w k x h = w k x (ground (arith, h, lookup-remove name k s.channels))
