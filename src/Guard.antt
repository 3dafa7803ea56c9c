-- ===== src/Guard.antt =====
-- modules/guard/guard.go and enforce.go: the spam guard. Times are nanoseconds, residents are dated in
-- seconds. `lower` stands for `strings.ToLower`. The settings of the registry are a record, whose
-- numbers are natural; a handler reads the clock where the source does.
pub mod Strangers
mod Tests
use botje.Prelude.{
  ℕ, zero, suc, ◌+◌, ◌-◌, ◌*◌, ◌/◌, Text, codes, Map, Bool, true, false, not, ◌&&◌, ◌||◌, List, [],
  ◌∷◌, ◌++◌, Option, none, some, lookup, insert, remove, keys, is_some, or_else, length, min, leb,
  ltb, contains, has_prefix, skip, trim_space, decimal, ◌==◌, nat_eq, text_eq, if◌then◌else◌,
}
use botje.Event.{Event}

abbrev pub second : ℕ
second = 1000000000

-- `seenSlack`, in seconds.
abbrev pub seen_slack : ℕ
seen_slack = 3600

pub record Settings : Type 0 where
  pub resident_days : ℕ
  pub gline_seconds : ℕ
  pub dup_channels : ℕ
  pub join_channels : ℕ
  pub join_window_sec : ℕ
  pub line_rate : ℕ
  pub line_window_sec : ℕ
  pub auth_password : Text

pub record Stamp : Type 0 where
  pub text : Text
  pub when : ℕ

-- `channels` is a set.
pub record Suspect : Type 0 where
  pub nick : Text
  pub host : Text
  pub lines : List Stamp
  pub joins : List Stamp
  pub channels : List Text
  pub actioned : Bool

abbrev pub Residents : Type 0
Residents = Map Text (Map Text ℕ)

pub record Guard : Type 0 where
  pub enabled : Bool
  pub residents : Residents
  pub saved : Residents
  pub dirty : Bool
  pub strangers : ℕ
  pub actions : ℕ
  pub suspects : Map Text Suspect

-- What the guard sends: a raw line to the server, or a message to a nick.
pub data Sends : Type 0 where
  raw : Text → Sends
  privmsg : Text → Text → Sends

abbrev pub is_empty : Text → Bool
is_empty [] = true
is_empty (c ∷ cs) = false

-- `mask`
pub mask : (Text → Text) → Event → Text
mask lower ev =
    if ev.sender_me || is_empty ev.sender.user || is_empty ev.sender.host
    then []
    else lower (ev.sender.user ++ b'@' ∷ ev.sender.host)

abbrev pub residents_of : Text → Residents → Map Text ℕ
residents_of server m = or_else (lookup server m) []

-- `isResident`
pub is_resident : Text → Text → Guard → Bool
is_resident server mk g = is_some (lookup mk (residents_of server g.residents))

-- The sighting is written down.
pub set_seen : Text → Text → ℕ → Guard → Guard
set_seen server mk now g = record g {
  residents = insert server (insert mk now (residents_of server g.residents)) g.residents;
  dirty = true;
}

pub recent : ℕ → Option ℕ → Bool
recent now none = false
recent now (some seen) = ltb (now - seen) seen_slack

-- `record`
pub note : ℕ → Text → Text → Guard → Guard
unfolding is_resident set_seen recent
note now server mk g =
    if is_empty mk
    then g
    else if not (is_resident server mk g) && g.enabled
    then g
    else if recent (now / second) (lookup mk (residents_of server g.residents))
    then g
    else set_seen server mk (now / second) g

abbrev new_suspect : Suspect
new_suspect = record {
  nick = [];
  host = [];
  lines = [];
  joins = [];
  channels = [];
  actioned = false;
}

-- `suspectFor`
pub suspect_for : Text → Event → Guard → Suspect
suspect_for mk ev g = record (or_else (lookup mk g.suspects) new_suspect) {
  nick = ev.sender.nick;
  host = ev.sender.host;
}

abbrev put_suspect : Text → Suspect → Guard → Guard
put_suspect mk s g = record g { suspects = insert mk s g.suspects }

-- `prune`: what is older than the window goes from the front.
pub prune : ℕ → ℕ → List Stamp → List Stamp
prune now window [] = []
prune now window (s ∷ ss) =
    let rest = prune now window ss in if ltb (s.when + window) now then rest else s ∷ ss

add_to_set : Text → List Text → List Text
add_to_set t ts = if contains t ts then ts else ts ++ t ∷ []

texts_of : List Stamp → List Text → List Text
unfolding add_to_set
texts_of [] seen = seen
texts_of (s ∷ ss) seen = texts_of ss (add_to_set s.text seen)

-- `distinct`
pub distinct_texts : List Stamp → ℕ
unfolding texts_of
distinct_texts ss = length (texts_of ss [])

same_lines : Text → List Stamp → ℕ
same_lines msg [] = 0
same_lines msg (s ∷ ss) = if s.text == msg then suc (same_lines msg ss) else same_lines msg ss

-- `dupChannels`
pub dup_channels_of : Suspect → Text → ℕ
unfolding same_lines
dup_channels_of s msg = min (same_lines msg s.lines) (length s.channels)

kicks : Text → Text → List Text → List Sends
kicks nick reason [] = []
kicks nick reason (ch ∷ chs) =
    raw (codes "KICK " ++ (ch ++ (b' ' ∷ nick ++ (codes " :" ++ reason)))) ∷ kicks nick reason chs

-- `enforce`
pub enforce : Settings → Text → Suspect → Text → Guard → Guard × List Sends
unfolding kicks
enforce conf mk s why g =
    let reason = codes "spam guard: " ++ why in
    let gline =
      codes "GLINE *@"
      ++ (s.host ++ (b' ' ∷ decimal conf.gline_seconds ++ (codes "s :" ++ reason))) in
    (
      record (put_suspect mk (record s { actioned = true }) g) { actions = suc g.actions },
      raw gline ∷ kicks s.nick reason s.channels,
    )

-- The heuristics of `watchLine`, for a suspect with the line noted.
judge_line : Settings → Text → Text → Suspect → Guard → Guard × List Sends
unfolding dup_channels_of enforce
judge_line conf mk msg s g =
    if leb conf.line_rate (length s.lines)
    then enforce conf mk s (codes "line flooding") g
    else if leb conf.dup_channels (dup_channels_of s msg)
    then enforce conf mk s (codes "same message to multiple channels") g
    else (put_suspect mk s g, [])

judge_join : Settings → Text → Suspect → Guard → Guard × List Sends
unfolding distinct_texts enforce
judge_join conf mk s g =
    if leb conf.join_channels (distinct_texts s.joins)
    then enforce conf mk s (codes "joining many channels at once") g
    else (put_suspect mk s g, [])

-- Nobody to watch: no mask, the guard is off, or a resident.
pub spared : Text → Text → Guard → Bool
unfolding is_resident
spared server mk g = is_empty mk || not g.enabled || is_resident server mk g

-- `watchLine`
pub watch_line : Settings → ℕ → Event → Text → Guard → Guard × List Sends
unfolding spared suspect_for prune add_to_set judge_line
watch_line conf now ev mk g =
    let s = suspect_for mk ev g in
    let noted = record s {
      channels = add_to_set ev.channel s.channels;
      lines =
          prune now (conf.line_window_sec * second)
            (s.lines ++ record { text = ev.msg; when = now } ∷ []);
    } in
    if spared ev.server mk g
    then (g, [])
    else if s.actioned
    then (put_suspect mk s g, [])
    else judge_line conf mk ev.msg noted g

-- `watchJoin`
pub watch_join : Settings → ℕ → Event → Text → Guard → Guard × List Sends
unfolding spared suspect_for prune add_to_set judge_join
watch_join conf now ev mk g =
    let s = suspect_for mk ev g in
    let noted = record s {
      channels = add_to_set ev.channel s.channels;
      joins =
          prune now (conf.join_window_sec * second)
            (s.joins ++ record { text = ev.channel; when = now } ∷ []);
    } in
    if spared ev.server mk g
    then (g, [])
    else if s.actioned
    then (put_suspect mk s g, [])
    else judge_join conf mk noted g

-- A message that is an attempt to authenticate, up to the password.
auth_text : Text → Option Text
auth_text msg =
    let line = trim_space msg in
    if has_prefix (codes "auth") line then some (trim_space (skip (codes "auth") line)) else none

-- The password is checked.
cleared : Settings → ℕ → Event → Text → Text → Guard → Guard × List Sends
unfolding set_seen
cleared conf now ev mk pass g =
    if is_empty conf.auth_password || not (pass == conf.auth_password)
    then (g, privmsg ev.sender.nick (codes "Guard: authentication failed.") ∷ [])
    else (
      record (set_seen ev.server mk (now / second) g) { suspects = remove mk g.suspects },
      privmsg ev.sender.nick (codes "Guard: you are cleared. Welcome.") ∷ [],
    )

module _ (lower : Text → Text) where
  -- `tryAuth`: none where the message is no attempt.
  pub try_auth : Settings → ℕ → Event → Guard → Option (Guard × List Sends)
  unfolding auth_text cleared mask
  try_auth conf now ev g = elim (auth_text ev.msg) [
    | none ↦ none
    | some pass ↦ some (cleared conf now ev (mask lower ev) pass g)
  ]

  -- `onSeen` past the escape hatch.
  pub seen_line : Settings → ℕ → ℕ → Event → Guard → Guard × List Sends
  unfolding watch_line note mask
  seen_line conf watch_at note_at ev g =
      let (g', out) = watch_line conf watch_at ev (mask lower ev) g in
      (note note_at ev.server (mask lower ev) g', out)

  -- `onSeen`
  pub on_seen : Settings → ℕ → ℕ → Event → Guard → Guard × List Sends
  unfolding seen_line try_auth
  on_seen conf watch_at note_at ev g =
      if ev.query
      then or_else (try_auth conf watch_at ev g) (seen_line conf watch_at note_at ev g)
      else seen_line conf watch_at note_at ev g

  -- `onJoin`
  pub on_join : Settings → ℕ → ℕ → Event → Guard → Guard × List Sends
  unfolding watch_join note mask is_resident
  on_join conf watch_at note_at ev g =
      let mk = mask lower ev in
      let stranger = not (is_empty mk) && g.enabled && not (is_resident ev.server mk g) in
      let counted = record g { strangers = suc g.strangers } in
      let (g', out) = if stranger then watch_join conf watch_at ev mk counted else (g, []) in
      (note note_at ev.server mk g', out)

-- The command `guard on`.
pub turn_on : Guard → Guard
turn_on g = record g { enabled = true }

-- The command `guard off`: the wave is forgotten.
pub turn_off : Guard → Guard
turn_off g = record g { enabled = false; suspects = [] }

-- Those seen since `cutoff`, all of it in seconds.
young : ℕ → ℕ → Map Text ℕ → Map Text ℕ
young now age [] = []
young now age ((mk, seen) ∷ m) =
    let rest = young now age m in if ltb (seen + age) now then rest else (mk, seen) ∷ rest

young_servers : ℕ → ℕ → Residents → Residents
unfolding young
young_servers now age [] = []
young_servers now age ((server, m) ∷ ms) = elim (young now age m) [
  | [] ↦ young_servers now age ms
  | r ∷ rs ↦ (server, r ∷ rs) ∷ young_servers now age ms
]

any_old : ℕ → ℕ → Residents → Bool
unfolding young
any_old now age [] = false
any_old now age ((server, m) ∷ ms) = ltb (length (young now age m)) (length m) || any_old now age ms

-- `age`
pub age_out : Settings → ℕ → Guard → Guard
unfolding young_servers any_old
age_out conf now g =
    let days = conf.resident_days * 86400 in
    record g {
      residents = young_servers (now / second) days g.residents;
      dirty = g.dirty || any_old (now / second) days g.residents;
    }

-- `flush`, with whether the store accepts the write.
pub flush : Bool → Guard → Guard
flush put_ok g = if g.dirty && put_ok then record g { saved = g.residents; dirty = false } else g
