-- ===== src/Conf/Overrides.antt =====
-- internal/conf/conf.go: a value from the file against what is stored, created and set.
use botje.Prelude.{
  Text, Map, Bool, true, false, List, [], ◌∷◌, none, some, lookup, insert, lookup-insert, is_some,
  subst, text_eq, text_beq_iff, arith, ◌≡◌, refl, ◌∙◌, sym, ap, ◌==◌, if◌then◌else◌, Bool-cases,
  inl, inr,
}
use botje.Conf.{
  Kind, Setting, Conf, Result, changed, unknown_setting, invalid_value, value, kind_eq, parse_ok,
  accepted, load_stored, create, set, read, read_found,
}
use botje.Conf.Values.{kind_eq_refl, set-changed, written}

-- What is done to a registry after its file was read.
pub data Change : Type 0 where
  loads : Map Text Text → Change
  creates : Text → Kind → Text → Change
  sets : Text → Text → Change

-- A setting of the kind is there, and the file has a value for it.
pub record Overridden (name : Text) (k : Kind) (ov : Text) (c : Conf) : Type 0 where
  pub setting : Setting
  pub there : lookup name c.settings ≡ some setting
  pub kind : setting.kind ≡ k
  pub file : lookup name c.overrides ≡ some ov

abbrev after_set : Result → Conf → Conf
after_set (changed c') c = c'
after_set unknown_setting c = c
after_set invalid_value c = c

module _ (parses : Kind → Text → Bool) where
  abbrev pub change : Change → Conf → Conf
  change (loads values) c = load_stored values c
  change (creates name k def) c = create parses name k def c
  change (sets name raw) c = after_set (set parses name raw c) c

  abbrev pub change_all : List Change → Conf → Conf
  change_all [] c = c
  change_all (x ∷ xs) c = change_all xs (change x c)

  -- Another setting, or another value for this one, leaves its kind.
  insert-Overridden :
      (name n : Text) (k : Kind) (ov : Text) (s : Setting) (c : Conf) (stored : Map Text Text)
      → (v : Overridden name k ov c) → ((n == name) ≡ true → s.kind ≡ k)
      → Overridden name k ov (record c { settings = insert n s c.settings; stored = stored })
  insert-Overridden name n k ov s c stored v h =
      let found = lookup-insert n name s c.settings in
      elim (Bool-cases (n == name)) [
        | inl same ↦ record {
          setting = s;
          there = found ∙ ap (λ b. if b then some s else lookup name c.settings) same;
          kind = h same;
          file = v.file;
        }
        | inr other ↦ record {
          setting = v.setting;
          there = found ∙ ap (λ b. if b then some s else lookup name c.settings) other ∙ v.there;
          kind = v.kind;
          file = v.file;
        }
      ]

  create-Overridden :
      (name n : Text) (k j : Kind) (ov def : Text) (c : Conf)
      → Overridden name k ov c
      → Overridden name k ov (create parses n j def c)
  unfolding create
  create-Overridden name n k j ov def c v = elim (Bool-cases (is_some (lookup n c.settings))) [
    | inl old ↦ rw old v
    | inr fresh ↦
        rw fresh (insert-Overridden name n k ov _ c c.stored v (λ e. absurd (known fresh e)))
  ]
    where
      known : is_some (lookup n c.settings) ≡ false → n == name ≡ true → ⊥
      known fresh e =
          let there =
            ap (λ x. is_some (lookup x c.settings)) ((text_beq_iff n name).0 e)
            ∙ ap is_some v.there in
          ground (arith, fresh, there)

  set-Overridden :
      (name n raw : Text) (k : Kind) (ov : Text) (c : Conf)
      → Overridden name k ov c
      → Overridden name k ov (after_set (set parses n raw c) c)
  unfolding written
  set-Overridden name n raw k ov c v = by_result (set parses n raw c) refl
    where
      by_result : (r : Result) → set parses n raw c ≡ r → Overridden name k ov (after_set r c)
      by_result unknown_setting e = v
      by_result invalid_value e = v
      by_result (changed c') e =
          let (s, there, ok, same) = set-changed parses n raw c c' e in
          subst (Overridden name k ov) (sym same) (
            insert-Overridden name n k ov (record s { raw = raw }) c (insert n raw c.stored) v
              (λ eq.
                ap (λ o. elim o [ none ↦ k | some x ↦ x.kind ])
                  (sym there ∙ ap (λ x. lookup x c.settings) ((text_beq_iff n name).0 eq) ∙ v.there)
                ∙ v.kind))

  change-Overridden :
      (x : Change) (name : Text) (k : Kind) (ov : Text) (c : Conf)
      → Overridden name k ov c
      → Overridden name k ov (change x c)
  unfolding load_stored
  change-Overridden (loads values) name k ov c v = record {
    setting = v.setting;
    there = v.there;
    kind = v.kind;
    file = v.file;
  }
  change-Overridden (creates n j def) name k ov c v = create-Overridden name n k j ov def c v
  change-Overridden (sets n raw) name k ov c v = set-Overridden name n raw k ov c v

  read-Overridden :
      (name : Text) (k : Kind) (ov : Text) (c : Conf)
      → parse_ok parses k ov ≡ true
      → Overridden name k ov c
      → read parses name k c ≡ value ov
  unfolding read read_found accepted
  read-Overridden name k ov c ok v =
      let same = ap (λ x. kind_eq x k) v.kind ∙ kind_eq_refl k in
      rw v.there (rw v.file (rw same (rw ok refl)))

  -- Of a setting that the file overrides with a value of its kind, a read gives the value of the
  -- file, whatever values are loaded, created or set before the read, by calls that succeed or not.
  pub read-change_all :
      (xs : List Change) (name : Text) (k : Kind) (ov : Text) (c : Conf)
      → parse_ok parses k ov ≡ true
      → Overridden name k ov c
      → read parses name k (change_all xs c) ≡ value ov
  read-change_all [] name k ov c ok v = read-Overridden name k ov c ok v
  read-change_all (x ∷ xs) name k ov c ok v =
      read-change_all xs name k ov (change x c) ok (change-Overridden x name k ov c v)
