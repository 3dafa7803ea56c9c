-- ===== src/Auth.antt =====
-- internal/auth/auth.go: the user database. bcrypt is a third-party package: `generate` stands for
-- what `GenerateFromPassword` gives (none for its error), `matches hash password` for whether
-- `CompareHashAndPassword` accepts. Whether the store's `Put` succeeds is an argument.
pub mod Checks
mod Tests
use botje.Prelude.{
  ℕ, zero, suc, Text, codes, Map, Bool, true, false, not, ◌&&◌, ◌||◌, List, [], ◌∷◌, ◌++◌, Option,
  none, some, lookup, insert, remove, is_some, keys, sort_texts, has_prefix, length, ltb,
  if◌then◌else◌, ◌==◌, text_eq, nat_eq,
}

pub data Result : Type 0 where
  no_such_user bad_pass valid super : Result

-- `users` is the table in memory, `saved` what the store holds of it.
pub record Auth : Type 0 where
  pub users : Map Text Text
  pub saved : Map Text Text
  pub super_name : Text
  pub super_hash : Text

-- `New`, with what the store gives.
pub load : Map Text Text → Auth
load users = record { users = users; saved = users; super_name = []; super_hash = [] }

-- `SetSuperuser`
pub set_superuser : Text → Text → Auth → Auth
set_superuser name hash a = record a { super_name = name; super_hash = hash }

-- How a change ends: done, refused for the name, refused by bcrypt, or not persisted.
pub data Ending : Type 0 where
  done refused no_hash not_saved : Ending

-- `store.Put`, after the table has changed.
persist : Bool → Map Text Text → Auth → Ending × Auth
persist true users a = (done, record a { users = users; saved = users })
persist false users a = (not_saved, record a { users = users })

abbrev is_empty : Text → Bool
is_empty [] = true
is_empty (c ∷ cs) = false

module _ (generate : Text → Option Text) where
  -- `setHash`
  set_hash : Bool → Text → Text → Auth → Ending × Auth
  unfolding persist
  set_hash put_ok name password a = elim (generate password) [
    | none ↦ (no_hash, a)
    | some hash ↦ persist put_ok (insert name hash a.users) a
  ]

  -- `AddUser`
  pub add_user : Bool → Text → Text → Auth → Ending × Auth
  unfolding set_hash
  add_user put_ok name password a =
      if is_some (lookup name a.users) then (refused, a) else set_hash put_ok name password a

  -- `SetPassword`
  pub set_password : Bool → Text → Text → Auth → Ending × Auth
  unfolding set_hash
  set_password put_ok name password a =
      if is_some (lookup name a.users) then set_hash put_ok name password a else (refused, a)

module _ (matches : Text → Text → Bool) where
  check_user : Text → Option Text → Result
  check_user password none = no_such_user
  check_user password (some hash) = if matches hash password then valid else bad_pass

  -- `Check`
  pub check : Text → Text → Auth → Result
  unfolding check_user
  check name password a =
      if not (is_empty a.super_name) && name == a.super_name
      then (if matches a.super_hash password then super else bad_pass)
      else check_user password (lookup name a.users)

-- A bcrypt hash is taken as it is, any other password is hashed.
hashed : (Text → Option Text) → Text → Text → Option (Text × Text)
hashed generate name pass =
    if has_prefix (codes "$2") pass
    then some (name, pass)
    else elim (generate pass) [ none ↦ none | some h ↦ some (name, h) ]

onto : ℕ → Option (Text × Text) → Option (Text × Text)
onto c none = none
onto c (some (a, b)) = some (c ∷ a, b)

-- `strings.Cut(spec, ":")`
pub cut_colon : Text → Option (Text × Text)
unfolding onto
cut_colon [] = none
cut_colon (c ∷ cs) = let more = onto c (cut_colon cs) in if c == b':' then some ([], cs) else more

-- `ParseSuperuser`; none is an error.
pub parse_superuser : (Text → Option Text) → Text → Option (Text × Text)
unfolding cut_colon hashed
parse_superuser generate spec = elim (cut_colon spec) [
  | none ↦ none
  | some (name, pass) ↦ if is_empty name || is_empty pass then none else hashed generate name pass
]

-- `DeleteUser`
pub delete_user : Bool → Text → Auth → Ending × Auth
unfolding persist
delete_user put_ok name a = persist put_ok (remove name a.users) a

-- `Users`
pub users_of : Auth → List Text
users_of a = sort_texts (keys a.users)
