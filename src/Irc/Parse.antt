-- ===== src/Irc/Parse.antt =====
-- internal/irc/parse.go: `ParseLine` and `ParsePrefix`. Each function matches one of the file's
-- regular expressions, over bytes.
use botje.Prelude.{
  ℕ, Text, Bool, false, not, ◌&&◌, ◌||◌, Option, none, some, [], ◌∷◌, lookup, or_else, length, ltb,
  leb, ◌==◌, nat_eq, text_eq, is_space, is_digit, is_letter, all_bytes, span, if◌then◌else◌,
  contains,
}
use botje.Irc.Numerics.{numerics}

pub record Line : Type 0 where
  pub prefix : Text
  pub cmd : Text
  pub name : Text
  pub code : Text
  pub params : Text

abbrev newline : ℕ
newline = 10

-- `\s+(.+)$` on what has no more than white space: `.+` is left the last byte.
blank_params : Text → Option Text
blank_params [] = none
blank_params (c ∷ []) = none
blank_params (c ∷ d ∷ []) = if d == newline then none else some (d ∷ [])
blank_params (c ∷ d ∷ e ∷ s) = blank_params (d ∷ e ∷ s)

text_params : Text → Text → Option Text
text_params blanks [] = blank_params blanks
text_params blanks (c ∷ cs) = if contains newline (c ∷ cs) then none else some (c ∷ cs)

-- `(?:\s+(.+))?$` behind a run of `\S`.
pub match_params : Text → Option Text
unfolding blank_params text_params
match_params [] = some []
match_params (c ∷ cs) = let (blanks, rest) = span is_space (c ∷ cs) in text_params blanks rest

with_cmd : Text → Text → Text → Option (Text × Text × Text)
with_cmd prefix [] rest = none
with_cmd prefix (c ∷ cmd) rest = elim (match_params rest) [
  | none ↦ none
  | some ps ↦ some (prefix, c ∷ cmd, ps)
]

-- `(\S+)(?:\s+(.+))?$`
pub match_cmd : Text → Text → Option (Text × Text × Text)
unfolding with_cmd
match_cmd prefix s = let (cmd, rest) = span (λ c. not (is_space c)) s in with_cmd prefix cmd rest

-- `:(\S+)\s+` in front of it.
with_prefix : Text → Text → Option (Text × Text × Text)
with_prefix [] rest = none
with_prefix (p ∷ ps) [] = none
with_prefix (p ∷ ps) (c ∷ cs) = let (blanks, s) = span is_space (c ∷ cs) in match_cmd (p ∷ ps) s

or_plain : Option (Text × Text × Text) → Text → Option (Text × Text × Text)
or_plain none s = match_cmd [] s
or_plain (some m) s = some m

-- `lineRe`: the submatches prefix, cmd and params.
pub match_line : Text → Option (Text × Text × Text)
unfolding with_prefix or_plain
match_line [] = none
match_line (c ∷ cs) =
    if c == b':'
    then (let (p, rest) = span (λ d. not (is_space d)) cs in or_plain (with_prefix p rest) (c ∷ cs))
    else match_cmd [] (c ∷ cs)

-- `cmdRe`
pub is_cmd : Text → Bool
is_cmd cmd =
    all_bytes is_digit cmd && length cmd == 3 || all_bytes is_letter cmd && ltb 0 (length cmd)

is_numeric : Text → Bool
is_numeric [] = false
is_numeric (c ∷ cs) = leb b'0' c && leb c b'9'

pub line_of : Text × Text × Text → Option Line
unfolding is_numeric
line_of (prefix, cmd, params) =
    if not (is_cmd cmd)
    then none
    else if is_numeric cmd
    then some (record {
      prefix = prefix;
      cmd = cmd;
      name = or_else (lookup cmd numerics) cmd;
      code = cmd;
      params = params;
    })
    else some (record { prefix = prefix; cmd = cmd; name = cmd; code = []; params = params })

unfoldable pub parse_line : Text → Option Line
unfolding match_line match_params match_cmd is_cmd line_of numerics
parse_line line = elim (match_line line) [ none ↦ none | some m ↦ line_of m ]

abbrev on_second : ℕ → Option (Text × Text) → Option (Text × Text)
on_second c none = none
on_second c (some (u, h)) = some (c ∷ u, h)

abbrev on_third : ℕ → Option (Text × Text × Text) → Option (Text × Text × Text)
on_third c none = none
on_third c (some (n, u, h)) = some (c ∷ n, u, h)

-- `(?:@(.+?))?$`
host_part : Text → Option Text
host_part [] = some []
host_part (c ∷ []) = none
host_part (c ∷ d ∷ h) = if c == b'@' && not (contains newline (d ∷ h)) then some (d ∷ h) else none

-- `.+?(?:@(.+?))?$` behind the first byte of the user: as short as what follows allows.
grow_user : Text → Option (Text × Text)
grow_user [] = some ([], [])
grow_user (c ∷ cs) =
    let longer = on_second c (grow_user cs) in
    elim (host_part (c ∷ cs)) [
      | some h ↦ some ([], h)
      | none ↦ if c == newline then none else longer
    ]

-- `!(.+?)(?:@(.+?))?$` behind the exclamation mark.
user_part : Text → Option (Text × Text)
user_part [] = none
user_part (c ∷ cs) = if c == newline then none else on_second c (grow_user cs)

without_user : Option Text → Option (Text × Text)
without_user none = none
without_user (some h) = some ([], h)

or_host : Option (Text × Text) → Text → Option (Text × Text)
or_host none s = without_user (host_part s)
or_host (some m) s = some m

-- `(?:!(.+?))?(?:@(.+?))?$`
pub after_nick : Text → Option (Text × Text)
unfolding host_part grow_user user_part without_user or_host
after_nick [] = some ([], [])
after_nick (c ∷ cs) =
    if c == b'!' then or_host (user_part cs) (c ∷ cs) else without_user (host_part (c ∷ cs))

-- `.+?` behind the first byte of the nick, and the rest of `prefixRe`.
grow_nick : Text → Option (Text × Text × Text)
grow_nick [] = some ([], [], [])
grow_nick (c ∷ cs) =
    let longer = on_third c (grow_nick cs) in
    elim (after_nick (c ∷ cs)) [
      | some (u, h) ↦ some ([], u, h)
      | none ↦ if c == newline then none else longer
    ]

-- `prefixRe`
pub match_prefix : Text → Option (Text × Text × Text)
unfolding after_nick grow_nick
match_prefix [] = none
match_prefix (c ∷ cs) = if c == newline then none else on_third c (grow_nick cs)

-- `ParsePrefix`: nick, user and host.
unfoldable pub parse_prefix : Text → Text × Text × Text
unfolding match_prefix
parse_prefix prefix = or_else (match_prefix prefix) ([], [], [])
