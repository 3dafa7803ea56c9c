-- ===== src/Karma/Votes.antt =====
-- modules/karma/karma.go: the karma of an item is the count of its votes.
use botje.Prelude.{
  ℕ, Text, Bool, ◌&&◌, List, [], ◌∷◌, Option, none, some, lookup, insert, lookup-insert, or_else,
  text_eq, text_beq_iff, arith, ◌≡◌, refl, ◌∙◌, ap, ◌==◌, if◌then◌else◌,
}
use botje.Prelude.Int.{ℤ}
use botje.Karma.{
  Entry, Data, Amount, bump, entry_in, entry_for, set_entry, voted, karma_of, adjust, get,
}

entry_in-set_entry :
    (server channel item : Text) (e : Entry) (d : Data) (server' channel' item' : Text)
    → entry_in server' channel' item' (set_entry server channel item e d) ≡ (
        if server == server' && channel == channel' && item == item'
        then some e
        else entry_in server' channel' item' d)
unfolding entry_in set_entry
entry_in-set_entry server channel item e d server' channel' item' =
    let channels = or_else (lookup server d.servers) [] in
    let items = or_else (lookup channel channels) [] in
    ground (
      arith,
      lookup-insert server server' (insert channel (insert item e items) channels) d.servers,
      lookup-insert channel channel' (insert item e items) channels,
      lookup-insert item item' e items,
      text_beq_iff server server',
      text_beq_iff channel channel',
      text_beq_iff item item',
    )

karma_of-voted :
    (now : ℕ) (amount : Amount) (reason : Text) (found : Option Entry)
    → (voted amount reason (entry_for now found)).karma ≡ bump amount (karma_of found)
unfolding voted entry_for
karma_of-voted now amount reason none = refl
karma_of-voted now amount reason (some e) = refl

-- A vote: an item, an amount, a server, a channel and a reason, at a time.
pub record Vote : Type 0 where
  pub now : ℕ
  pub item : Text
  pub amount : Amount
  pub server : Text
  pub channel : Text
  pub reason : Text

module _ (lower : Text → Text) where
  unfoldable pub vote : Vote → Data → Data
  unfolding adjust
  vote v d = (adjust lower v.now v.item v.amount v.server v.channel v.reason d).1

  abbrev pub vote_all : List Vote → Data → Data
  vote_all [] d = d
  vote_all (v ∷ vs) d = vote_all vs (vote v d)

  -- The votes on an item in a channel, and everywhere, counted from some karma on.
  abbrev pub is_on : Text → Vote → Bool
  is_on item v = lower v.item == lower item

  abbrev pub count_here : Text → Text → Text → List Vote → ℤ → ℤ
  count_here item server channel [] n = n
  count_here item server channel (v ∷ vs) n =
      count_here item server channel vs
        (if v.server == server && v.channel == channel && is_on item v then bump v.amount n else n)

  abbrev pub count_all : Text → List Vote → ℤ → ℤ
  count_all item [] n = n
  count_all item (v ∷ vs) n = count_all item vs (if is_on item v then bump v.amount n else n)

  get-vote_here :
      (v : Vote) (d : Data) (item server channel : Text)
      → (get lower item server channel (vote v d)).0 ≡ (
          if v.server == server && v.channel == channel && is_on item v
          then bump v.amount (get lower item server channel d).0
          else (get lower item server channel d).0)
  unfolding get vote adjust entry_in set_entry
  get-vote_here v d item server channel =
      let key = lower v.item in
      let found = entry_in v.server v.channel key d in
      let e = voted v.amount v.reason (entry_for v.now found) in
      ap karma_of (entry_in-set_entry v.server v.channel key e d server channel (lower item))
      ∙ ground (
        arith,
        karma_of-voted v.now v.amount v.reason found,
        text_beq_iff v.server server,
        text_beq_iff v.channel channel,
        text_beq_iff key (lower item),
      )

  get-vote_all :
      (v : Vote) (d : Data) (item server channel : Text)
      → (get lower item server channel (vote v d)).1 ≡ (
          if is_on item v
          then bump v.amount (get lower item server channel d).1
          else (get lower item server channel d).1)
  unfolding get vote adjust
  get-vote_all v d item server channel =
      let key = lower v.item in
      let found = lookup key d.global in
      let e = voted v.amount v.reason (entry_for v.now found) in
      ap karma_of (lookup-insert key (lower item) e d.global)
      ∙ ground (arith, karma_of-voted v.now v.amount v.reason found, text_beq_iff key (lower item))

  -- After any votes, what `get` gives for an item in a channel is what it gave before, changed by the
  -- votes on that item there, and its global karma is changed by the votes on it anywhere.
  pub vote_all-get :
      (vs : List Vote) (d : Data) (item server channel : Text)
      → let before = get lower item server channel d in
        get lower item server channel (vote_all vs d)
        ≡ (count_here item server channel vs before.0, count_all item vs before.1)
  vote_all-get [] d item server channel = refl
  vote_all-get (v ∷ vs) d item server channel =
      rw (← get-vote_here v d item server channel) (
        rw (← get-vote_all v d item server channel)
          (vote_all-get vs (vote v d) item server channel))
