-- ===== src/Auth/Checks.antt =====
-- internal/auth/auth.go: what `Check` answers after the changes.
use botje.Prelude.{
  Text, Bool, true, false, not, ◌&&◌, Option, none, some, lookup, lookup-insert, lookup-remove,
  is_some, if◌then◌else◌, ◌==◌, ==_refl, text_eq, arith, ◌≡◌, ◌≢◌, refl, Bool-cases, inl, inr, ◌⊎◌,
}
use botje.Auth.{
  no_such_user, valid, Auth, refused, is_empty, persist, set_hash, add_user, set_password,
  delete_user, check, check_user,
}

-- The name is the superuser's.
abbrev pub is_super : Text → Auth → Bool
is_super name a = not (is_empty a.super_name) && name == a.super_name

module _ (generate : Text → Option Text) (matches : Text → Text → Bool)
    (sound : (password hash : Text)
      → generate password ≡ some hash
      → matches hash password ≡ true) where
  set_hash-check :
      (put_ok : Bool) (name password : Text) (a : Auth)
      → generate password ≢ none
      → is_super name a ≡ false
      → check matches name password (set_hash generate put_ok name password a).1 ≡ valid
  unfolding check check_user set_hash persist
  set_hash-check put_ok name password a ok plain = by_hash (generate password) refl
    where
      by_hash :
          (o : Option Text)
          → generate password ≡ o
          → check matches name password (set_hash generate put_ok name password a).1 ≡ valid
      by_hash none e = absurd (ok e)
      by_hash (some hash) e =
          ground (arith, sound password hash e, lookup-insert name name hash a.users, ==_refl name)

  -- A new user whose password bcrypt hashes is let in with that password at once, also where the
  -- store fails; a name that is taken is refused, and nothing changes.
  pub check-add_user :
      (put_ok : Bool) (name password : Text) (a : Auth)
      → generate password ≢ none
      → is_super name a ≡ false
      → ((is_some (lookup name a.users) ≡ true)
          × (add_user generate put_ok name password a ≡ (refused, a)))
        ⊎ ((is_some (lookup name a.users) ≡ false)
            × (check matches name password (add_user generate put_ok name password a).1 ≡ valid))
  unfolding add_user
  check-add_user put_ok name password a ok plain =
      elim (Bool-cases (is_some (lookup name a.users))) [
        | inl taken ↦ inl (taken, rw taken)
        | inr free ↦ inr (free, rw free (set_hash-check put_ok name password a ok plain))
      ]

  -- After `SetPassword` a user of the table is let in with the new password.
  pub check-set_password :
      (put_ok : Bool) (name password : Text) (a : Auth)
      → generate password ≢ none
      → is_super name a ≡ false
      → is_some (lookup name a.users) ≡ true
      → check matches name password (set_password generate put_ok name password a).1 ≡ valid
  unfolding set_password
  check-set_password put_ok name password a ok plain there =
      rw there (set_hash-check put_ok name password a ok plain)

-- A deleted user is unknown, and every other name is answered as before.
pub check-delete_user :
    (matches : Text → Text → Bool) (put_ok : Bool) (name other password : Text) (a : Auth)
    → is_super other a ≡ false
    → check matches other password (delete_user put_ok name a).1
      ≡ (if name == other then no_such_user else check matches other password a)
unfolding check check_user delete_user persist
check-delete_user matches true name other password a plain =
    ground (arith, lookup-remove name other a.users)
check-delete_user matches false name other password a plain =
    ground (arith, lookup-remove name other a.users)
