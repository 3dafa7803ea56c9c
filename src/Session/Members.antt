-- ===== src/Session/Members.antt =====
-- internal/irc/session.go: the channel and member bookkeeping of the handlers. `lower` stands for
-- `strings.ToLower`, whose Unicode tables are not written out; nothing here depends on them.
use botje.Prelude.{
  sort_texts, values, keys, Text, Bool, false, List, [], ◌∷◌, ◌||◌, ◌==◌, nat_eq, text_eq, insert,
  lookup, remove, is_some, none, some, if◌then◌else◌,
}
use botje.Session.State.{Channel, Session}

-- `strings.TrimLeft(n, "~&@%+")`
unfoldable pub trim_status : Text → Text
trim_status [] = []
trim_status (c ∷ cs) =
    let rest = trim_status cs in
    if c == b'~' || c == b'&' || c == b'@' || c == b'%' || c == b'+' then rest else c ∷ cs

module _ (lower : Text → Text) where
  -- `addMember`
  unfoldable pub add_member : Text → Channel → Channel
  add_member nick st = record st { members = insert (lower nick) nick st.members }

  -- `delete(st.members, strings.ToLower(nick))`
  unfoldable pub drop_member : Text → Channel → Channel
  drop_member nick st = record st { members = remove (lower nick) st.members }

  -- One pass of the loop in `onNick`.
  unfoldable pub rename_member : Text → Text → Channel → Channel
  unfolding add_member drop_member
  rename_member old new st =
      if is_some (lookup (lower old) st.members) then add_member new (drop_member old st) else st

  -- One nick of a NAMES line.
  unfoldable pub add_pending : Text → Channel → Channel
  add_pending [] st = st
  add_pending (c ∷ cs) st = record st { pending = insert (lower (c ∷ cs)) (c ∷ cs) st.pending }

  unfoldable pub add_names : List Text → Channel → Channel
  unfolding add_pending trim_status
  add_names [] st = st
  add_names (n ∷ ns) st = add_names ns (add_pending (trim_status n) st)

  -- `NickIn`
  unfoldable pub nick_in : Text → Text → Session → Bool
  nick_in channel nick s = elim (lookup channel s.channels) [
    | none ↦ false
    | some st ↦ is_some (lookup (lower nick) st.members)
  ]

-- The swap of `onEndOfNames`.
unfoldable pub swap_names : Channel → Channel
swap_names st = record st { members = st.pending; pending = [] }

-- `InChannel`
unfoldable pub in_channel : Text → Session → Bool
in_channel channel s = is_some (lookup channel s.channels)

-- `Topic`
unfoldable pub topic_of : Text → Session → Text
topic_of channel s = elim (lookup channel s.channels) [ none ↦ [] | some st ↦ st.topic ]

-- `Members`
unfoldable pub members_of : Text → Session → List Text
members_of channel s = elim (lookup channel s.channels) [
  | none ↦ []
  | some st ↦ sort_texts (values st.members)
]

-- `Channels`
unfoldable pub channels_of : Session → List Text
channels_of s = sort_texts (keys s.channels)
