-- ===== src/Auth/Tests.antt =====
-- internal/auth/auth.go: a small user table, and the theorems at it.
use botje.Prelude.{
  Text, codes, Bool, true, false, Option, none, some, ◌≡◌, ◌≢◌, refl, [], ◌∷◌, ◌++◌, ◌==◌, ==_refl,
  text_eq, text_beq, has_prefix, sort_texts, insert_by, sort_by, keys, lookup, is_some, arith, ◌⊎◌,
}
use botje.Auth.{
  valid, Auth, refused, load, set_superuser, add_user, parse_superuser, check, users_of,
}
use botje.Auth.Checks.{is_super, check-add_user}

-- In the place of bcrypt: the hash shows the password.
abbrev show_hash : Text → Option Text
show_hash password = some (codes "$2" ++ password)

abbrev shown : Text → Text → Bool
shown hash password = hash == codes "$2" ++ password

shown_sound : (password hash : Text) → show_hash password ≡ some hash → shown hash password ≡ true
shown_sound password hash h = ground (arith, ==_refl hash, h)

never_fails : show_hash (codes "new") ≢ none
never_fails h = absurd (cc)

abbrev table : Auth
table = record {
  users = (codes "bob", codes "$2old") ∷ [];
  saved = (codes "bob", codes "$2old") ∷ [];
  super_name = codes "root";
  super_hash = codes "$2top";
}

loaded :
    set_superuser (codes "root") (codes "$2top") (load ((codes "bob", codes "$2old") ∷ [])) ≡ table
unfolding load set_superuser
loaded = refl

users_of-table : users_of table ≡ codes "bob" ∷ []
unfolding users_of keys sort_texts sort_by insert_by
users_of-table = refl

plain : (name : Text) → text_beq name (codes "root") ≡ false → is_super name table ≡ false
plain name h = h

check-add_user_example :
    ((is_some (lookup (codes "eve") table.users) ≡ true)
      × (add_user show_hash false (codes "eve") (codes "new") table ≡ (refused, table)))
    ⊎ ((is_some (lookup (codes "eve") table.users) ≡ false)
        × (check shown
              (codes "eve")
              (codes "new")
              (add_user show_hash false (codes "eve") (codes "new") table).1
            ≡ valid))
check-add_user_example =
    check-add_user show_hash shown shown_sound false (codes "eve") (codes "new") table never_fails
      (plain (codes "eve") (unfold text_beq in refl))

parse_superuser_hash :
    parse_superuser show_hash (codes "root:$2top") ≡ some (codes "root", codes "$2top")
unfolding parse_superuser has_prefix
parse_superuser_hash = refl

parse_superuser_plain : parse_superuser show_hash (codes "root:") ≡ none
unfolding parse_superuser has_prefix
parse_superuser_plain = refl
