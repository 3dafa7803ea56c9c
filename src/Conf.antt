-- ===== src/Conf.antt =====
-- internal/conf/conf.go: the settings registry. Parsing a number, a float or a Boolean is strconv's:
-- `parse_ok` stands for whether `Atoi`, `ParseFloat` or `ParseBool` accepts a text.
pub mod Values
pub mod Overrides
mod Tests
use botje.Prelude.{
  ℕ, zero, suc, Text, Map, Bool, true, false, ◌&&◌, List, [], ◌∷◌, ◌++◌, Option, none, some, lookup,
  insert, is_some, or_else, keys, map_values, sort_texts, if◌then◌else◌, ◌==◌, text_eq, text_ltb,
}

pub data Kind : Type 0 where
  kind_int kind_float kind_string kind_bool : Kind

pub record Setting : Type 0 where
  pub kind : Kind
  pub raw : Text

pub record Conf : Type 0 where
  pub settings : Map Text Setting
  pub stored : Map Text Text
  pub overrides : Map Text Text

abbrev pub new : Conf
new = record { settings = []; stored = []; overrides = [] }

pub kind_eq : Kind → Kind → Bool
kind_eq kind_int kind_int = true
kind_eq kind_float kind_float = true
kind_eq kind_string kind_string = true
kind_eq kind_bool kind_bool = true
kind_eq _ _ = false

-- `maps.Copy(dst, src)`
pub copy : Map Text Text → Map Text Text → Map Text Text
copy to [] = to
copy to ((k, v) ∷ from) = copy (insert k v to) from

-- `LoadStored`
pub load_stored : Map Text Text → Conf → Conf
unfolding copy
load_stored values c = record c { stored = copy c.stored values }

-- `SetFileOverrides`
pub set_file_overrides : Map Text Text → Conf → Conf
unfolding copy
set_file_overrides values c = record c { overrides = copy c.overrides values }

-- What `Set` comes to.
pub data Result : Type 0 where
  changed : Conf → Result
  unknown_setting : Result
  invalid_value : Result

-- The panics of `read`.
pub data Read (A : Type 0) : Type 0 where
  value : A → Read A
  no_setting : Read A
  wrong_kind : Read A

module _ (parses : Kind → Text → Bool) where
  -- `parseOK`: any text is a string.
  pub parse_ok : Kind → Text → Bool
  parse_ok kind_string raw = true
  parse_ok kind_int raw = parses kind_int raw
  parse_ok kind_float raw = parses kind_float raw
  parse_ok kind_bool raw = parses kind_bool raw

  accepted : Kind → Option Text → Text → Text
  accepted k none def = def
  accepted k (some v) def = if parse_ok k v then v else def

  -- `create`
  pub create : Text → Kind → Text → Conf → Conf
  unfolding accepted
  create name k def c = if is_some (lookup name c.settings) then c else record c {
    settings =
        insert name (record { kind = k; raw = accepted k (lookup name c.stored) def }) c.settings;
  }

  set_found : Text → Text → Option Setting → Conf → Result
  set_found name raw none c = unknown_setting
  set_found name raw (some s) c =
      if parse_ok s.kind raw
      then changed (record c {
        settings = insert name (record s { raw = raw }) c.settings;
        stored = insert name raw c.stored;
      })
      else invalid_value

  -- `Set`; the owner's `OnChange` is called exactly when the result is `changed`.
  pub set : Text → Text → Conf → Result
  unfolding set_found
  set name raw c = set_found name raw (lookup name c.settings) c

  read_found : Kind → Option Setting → Option Text → Read Text
  read_found k none ov = no_setting
  read_found k (some s) ov = if kind_eq s.kind k then value (accepted k ov s.raw) else wrong_kind

  -- `read`
  pub read : Text → Kind → Conf → Read Text
  unfolding read_found accepted kind_eq
  read name k c = read_found k (lookup name c.settings) (lookup name c.overrides)

-- `Dump`
pub dump : Conf → Map Text Text
dump c = map_values (λ (s : Setting). s.raw) c.settings

-- `List`
pub list : Conf → List Text
list c = sort_texts (keys c.settings)
