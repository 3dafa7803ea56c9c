-- ===== src/Conf/Tests.antt =====
-- internal/conf/conf.go: a registry with two settings, and the theorems at it.
use botje.Prelude.{
  Text, codes, text_eq, text_beq, Bool, true, some, [], ◌∷◌, ◌≡◌, refl, arith, lookup, insert,
  all_bytes, is_digit, keys, sort_texts, sort_by, insert_by, map_values, text_ltb,
}
use botje.Conf.{
  Kind, kind_int, kind_string, Setting, Conf, new, changed, value, parse_ok, set, read, load_stored,
  set_file_overrides, dump, list,
}
use botje.Conf.Values.{IsValid, set-IsValid, read-set}
use botje.Conf.Overrides.{Overridden, loads, sets, change_all, read-change_all}

-- In the place of strconv: digits are a number.
abbrev digits : Kind → Text → Bool
digits k raw = all_bytes is_digit raw

abbrev tries : Setting
tries = record { kind = kind_int; raw = codes "3" }

abbrev two : Conf
two = record {
  settings =
      (codes "tries", tries) ∷ (codes "name", record { kind = kind_string; raw = codes "x" }) ∷ [];
  stored = (codes "old", codes "1") ∷ [];
  overrides = (codes "name", codes "file") ∷ [];
}

abbrev two_set : Conf
two_set = record two {
  settings =
      (codes "tries", record tries { raw = codes "42" })
      ∷ (codes "name", record { kind = kind_string; raw = codes "x" })
      ∷ [];
  stored = (codes "old", codes "1") ∷ (codes "tries", codes "42") ∷ [];
}

list-two : list two ≡ codes "name" ∷ codes "tries" ∷ []
unfolding list keys sort_texts sort_by insert_by text_ltb
list-two = refl

dump-two : lookup (codes "tries") (dump two) ≡ some (codes "3")
unfolding dump map_values lookup text_beq
dump-two = refl

read_override : read digits (codes "name") kind_string two ≡ value (codes "file")
unfolding read parse_ok lookup text_beq
read_override = refl

new-IsValid : IsValid digits new
new-IsValid = record { typed = unfold lookup in λ name s h. absurd (cc) }

two_typed :
    (name : Text) (s : Setting)
    → lookup name two.settings ≡ some s
    → parse_ok digits s.kind s.raw ≡ true
unfolding lookup parse_ok all_bytes is_digit
two_typed name s h = ground (arith, h)

two-IsValid : IsValid digits two
two-IsValid = record { typed = two_typed }

set-two : set digits (codes "tries") (codes "42") two ≡ changed two_set
unfolding set parse_ok lookup insert text_beq all_bytes is_digit
set-two = refl

set-IsValid_example : IsValid digits two_set
set-IsValid_example =
    set-IsValid digits (codes "tries") (codes "42") two two_set two-IsValid set-two

name_Overridden : Overridden (codes "name") kind_string (codes "file") two
name_Overridden = record {
  setting = record { kind = kind_string; raw = codes "x" };
  there = unfold lookup text_beq in refl;
  kind = refl;
  file = unfold lookup text_beq in refl;
}

read-change_all_example :
    read digits (codes "name") kind_string (
      change_all digits
        (loads ((codes "name", codes "old") ∷ []) ∷ sets (codes "name") (codes "new") ∷ [])
        two)
    ≡ value (codes "file")
read-change_all_example =
    read-change_all digits
      (loads ((codes "name", codes "old") ∷ []) ∷ sets (codes "name") (codes "new") ∷ [])
      (codes "name") kind_string (codes "file") two (unfold parse_ok in refl) name_Overridden

read-set_example :
    (s : Setting) × (lookup (codes "tries") two.settings ≡ some s)
    × (read digits (codes "tries") s.kind two_set ≡ value (codes "42"))
    × (lookup (codes "tries") two_set.stored ≡ some (codes "42"))
read-set_example =
    read-set digits (codes "tries") (codes "42") two two_set (unfold lookup text_beq in refl)
      set-two

load_stored-new :
    (load_stored ((codes "tries", codes "9") ∷ []) new).stored ≡ (codes "tries", codes "9") ∷ []
unfolding load_stored insert
load_stored-new = refl

overrides_new :
    (set_file_overrides ((codes "name", codes "z") ∷ []) two).overrides
    ≡ (codes "name", codes "z") ∷ []
unfolding set_file_overrides insert text_beq
overrides_new = refl
