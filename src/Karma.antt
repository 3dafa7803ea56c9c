-- ===== src/Karma.antt =====
-- modules/karma/karma.go: votes on items. `lower` stands for `strings.ToLower`. What the patterns find
-- in a message is an argument; the code adjusts by one in either direction. Numbers do not overflow.
pub mod Votes
mod Tests
use botje.Prelude.{
  ℕ, zero, suc, Text, codes, Map, Bool, true, false, not, ◌&&◌, ◌||◌, List, [], ◌∷◌, ◌++◌, Option,
  none, some, lookup, insert, keys, or_else, length, ltb, decimal, text_ltb, sort_by, trim_space,
  ◌==◌, nat_eq, text_eq, if◌then◌else◌,
}
use botje.Prelude.Int.{ℤ, pos, negsuc}
use botje.Event.{Event}

pub record Entry : Type 0 where
  pub karma : ℤ
  pub last : ℕ
  pub reason : Map Text (Map Text ℕ)

abbrev pub Channels : Type 0
Channels = Map Text (Map Text Entry)

pub record Data : Type 0 where
  pub servers : Map Text Channels
  pub global : Map Text Entry

pub data Amount : Type 0 where
  plus_one minus_one : Amount

pub bump : Amount → ℤ → ℤ
bump plus_one (pos n) = pos (suc n)
bump plus_one (negsuc zero) = pos 0
bump plus_one (negsuc (suc n)) = negsuc n
bump minus_one (pos zero) = negsuc 0
bump minus_one (pos (suc n)) = pos n
bump minus_one (negsuc n) = negsuc (suc n)

pub entry_in : Text → Text → Text → Data → Option Entry
entry_in server channel item d =
    lookup item (or_else (lookup channel (or_else (lookup server d.servers) [])) [])

abbrev pub new_entry : ℕ → Entry
new_entry now = record { karma = pos 0; last = now; reason = [] }

-- `entryFor` and `globalFor`: the entry, made if there is none.
pub entry_for : ℕ → Option Entry → Entry
entry_for now found = or_else found (new_entry now)

pub set_entry : Text → Text → Text → Entry → Data → Data
set_entry server channel item e d =
    let channels = or_else (lookup server d.servers) [] in
    let items = or_else (lookup channel channels) [] in
    record d { servers = insert server (insert channel (insert item e items) channels) d.servers }

abbrev direction : Amount → Text
direction plus_one = codes "up"
direction minus_one = codes "down"

tally : Text → Text → Map Text (Map Text ℕ) → Map Text (Map Text ℕ)
tally ud reason m =
    let counts = or_else (lookup ud m) [] in
    insert ud (insert reason (suc (or_else (lookup reason counts) 0)) counts) m

-- What `adjust` does to one of the two entries.
pub voted : Amount → Text → Entry → Entry
unfolding bump tally
voted amount reason e = record e {
  karma = bump amount e.karma;
  reason = if ltb 2 (length reason) then tally (direction amount) reason e.reason else e.reason;
}

abbrev pub karma_of : Option Entry → ℤ
karma_of none = pos 0
karma_of (some e) = e.karma

module _ (lower : Text → Text) where
  -- `adjust`, without the save.
  pub adjust : ℕ → Text → Amount → Text → Text → Text → Data → (ℤ × ℤ) × Data
  unfolding entry_in entry_for set_entry voted
  adjust now item amount server channel reason d =
      let key = lower item in
      let e = voted amount reason (entry_for now (entry_in server channel key d)) in
      let g = voted amount reason (entry_for now (lookup key d.global)) in
      (
        (e.karma, g.karma),
        record (set_entry server channel key e d) { global = insert key g d.global },
      )

  -- `get`
  pub get : Text → Text → Text → Data → ℤ × ℤ
  unfolding entry_in
  get item server channel d =
      let key = lower item in
      (karma_of (entry_in server channel key d), karma_of (lookup key d.global))

  -- `onKick`
  pub on_kick : ℕ → Event → Data → Data
  unfolding adjust
  on_kick now ev d =
      if ev.target_me
      then (adjust now ev.sender.nick minus_one ev.server ev.channel
          (codes "For kicking defenseless bots") d).1
      else d

-- `%d`
pub decimal_ℤ : ℤ → Text
decimal_ℤ (pos n) = decimal n
decimal_ℤ (negsuc n) = b'-' ∷ decimal (suc n)

-- The reply of `onPrivmsg`.
pub karma_line : Text → Text → ℤ × ℤ → Text
unfolding decimal_ℤ
karma_line item word (here, everywhere) =
    codes "Karma for {m}"
    ++ (item
        ++ (codes "{/} in this channel is "
            ++ (word
                ++ (codes " {m}"
                    ++ (decimal_ℤ here
                        ++ (codes "{/} (global karma is {m}"
                            ++ (decimal_ℤ everywhere ++ codes "{/}).")))))))

-- The reasons, with the most counted first.
ranks : Text × ℕ → Text × ℕ → Bool
ranks (a, n) (b, m) = if n == m then text_ltb a b else ltb m n

reason_lines : Text → List (Text × ℕ) → List Text
reason_lines sign [] = []
reason_lines sign ((reason, n) ∷ rs) =
    (reason ++ (codes ": " ++ (sign ++ (decimal n ++ codes "{/}")))) ∷ reason_lines sign rs

reasons_of : Text → Option Entry → Map Text ℕ
reasons_of ud none = []
reasons_of ud (some e) = or_else (lookup ud e.reason) []

why_lines : Text → Text → Text → Map Text ℕ → List Text
unfolding ranks reason_lines
why_lines item incdec sign [] =
    (codes "No reasons were found for the karma "
      ++ (incdec ++ (codes " of {m}" ++ (item ++ codes "{/}."))))
    ∷ []
why_lines item incdec sign (r ∷ rs) =
    (codes "The following reasons were found for the karma "
      ++ (incdec ++ (codes " of {m}" ++ (item ++ codes "{/}:"))))
    ∷ reason_lines sign (sort_by ranks (r ∷ rs))

-- `whyKarma`: the lines for the pager, none if the bot itself asks.
pub why_karma : (Text → Text) → Text → Text → Event → Data → Option (List Text)
unfolding why_lines reasons_of entry_in
why_karma lower command text ev d =
    let item = trim_space (lower text) in
    let found = entry_in ev.server ev.channel item d in
    let ups = why_lines item (codes "increase") (codes "{G}+") (reasons_of (codes "up") found) in
    let downs =
      why_lines item (codes "decrease") (codes "{R}-") (reasons_of (codes "down") found) in
    if ev.sender_me then none else some (if command == codes "wku" then ups else downs)
