-- ===== src/Conf/Values.antt =====
-- internal/conf/conf.go: what a read gives after the changes.
use botje.Prelude.{
  Text, Map, Bool, true, Option, none, some, lookup, insert, lookup-insert, is_some, ==_refl,
  text_eq, subst, arith, ◌≡◌, refl, sym, Bool-cases, inl, inr,
}
use botje.Conf.{
  Kind, Setting, Conf, changed, value, kind_eq, parse_ok, accepted, create, set, set_found, read,
  read_found,
}

kind_eq→eq : (a b : Kind) → kind_eq a b ≡ true → a ≡ b
unfolding kind_eq
kind_eq→eq a b h = ground arith

pub kind_eq_refl : (a : Kind) → kind_eq a a ≡ true
unfolding kind_eq
kind_eq_refl a = ground arith

module _ (parses : Kind → Text → Bool) where
  -- Every setting in force has a value of its kind.
  pub record IsValid (c : Conf) : Type 0 where
    pub typed :
        (name : Text) (s : Setting)
        → lookup name c.settings ≡ some s
        → parse_ok parses s.kind s.raw ≡ true

  accepted-ok :
      (k : Kind) (v : Option Text) (def : Text)
      → parse_ok parses k def ≡ true
      → parse_ok parses k (accepted parses k v def) ≡ true
  unfolding accepted
  accepted-ok k none def h = h
  accepted-ok k (some v) def h = ground arith

  put-IsValid :
      (name : Text) (s : Setting) (c : Conf) (stored : Map Text Text)
      → IsValid c
      → parse_ok parses s.kind s.raw ≡ true
      → IsValid (record c { settings = insert name s c.settings; stored = stored })
  put-IsValid name s c stored v h = record {
    typed = λ n x e. ground (arith, lookup-insert name n s c.settings, v.typed n x);
  }

  -- Creating a setting with a default of its kind, whatever was stored for it, keeps every setting
  -- at a value of its kind.
  pub create-IsValid :
      (name : Text) (k : Kind) (def : Text) (c : Conf)
      → parse_ok parses k def ≡ true
      → IsValid c
      → IsValid (create parses name k def c)
  unfolding create
  create-IsValid name k def c h v = elim (Bool-cases (is_some (lookup name c.settings))) [
    | inl old ↦ rw old v
    | inr fresh ↦
        rw fresh (put-IsValid name _ c c.stored v (accepted-ok k (lookup name c.stored) def h))
  ]

  unfoldable pub written : Text → Text → Setting → Conf → Conf
  written name raw s c = record c {
    settings = insert name (record s { raw = raw }) c.settings;
    stored = insert name raw c.stored;
  }

  pub set-changed :
      (name raw : Text) (c c' : Conf)
      → set parses name raw c ≡ changed c'
      → (s : Setting) × (lookup name c.settings ≡ some s)
        × (parse_ok parses s.kind raw ≡ true)
        × (c' ≡ written name raw s c)
  unfolding set set_found written
  set-changed name raw c c' h = by_setting (lookup name c.settings) refl
    where
      by_setting :
          (o : Option Setting)
          → lookup name c.settings ≡ o
          → (s : Setting) × (lookup name c.settings ≡ some s)
            × (parse_ok parses s.kind raw ≡ true)
            × (c' ≡ written name raw s c)
      by_setting none e = absurd (ground arith)
      by_setting (some s) e = (s, e, ground arith, ground arith)

  -- A `Set` that succeeds on a valid registry keeps every setting at a value of its kind.
  pub set-IsValid :
      (name raw : Text) (c c' : Conf) → IsValid c → set parses name raw c ≡ changed c' → IsValid c'
  unfolding written
  set-IsValid name raw c c' v h =
      let (s, e, ok, same) = set-changed name raw c c' h in
      subst IsValid (sym same) (put-IsValid name (record s { raw = raw }) c _ v ok)

  -- With no override from the file, what `Set` accepts is stored, and is what a read by the
  -- setting's kind gives.
  pub read-set :
      (name raw : Text) (c c' : Conf)
      → lookup name c.overrides ≡ none
      → set parses name raw c ≡ changed c'
      → (s : Setting) × (lookup name c.settings ≡ some s)
        × (read parses name s.kind c' ≡ value raw)
        × (lookup name c'.stored ≡ some raw)
  unfolding read read_found written accepted
  read-set name raw c c' none_over h =
      let (s, e, ok, same) = set-changed name raw c c' h in
      (
        s,
        e,
        rw same (rw (lookup-insert, none_over) (rw (==_refl name) (rw (kind_eq_refl s.kind)))),
        rw same (rw lookup-insert (rw (==_refl name))),
      )
