-- ===== src/Prelude.antt =====
-- The names that the other modules share: the libraries', passed on, and those of the children.
mod Tests
mod Lists
mod Maps
mod Texts
mod Utf8
mod Slices
pub mod Int
mod Runes
mod UniqueKeys
pub use Tests.*
pub use Lists.*
pub use Slices.*
pub use Runes.{runes-length}
pub use UniqueKeys.*
unfoldable pub use Lists.{contains, distinct}
pub use Maps.{Map, is_some, or_else, lookup-insert, lookup-remove, on_some, lookup-map_values}
unfoldable pub use Maps.{lookup, insert, remove, keys, values, map_values}
unfoldable pub use Utf8.{
  rune_width, to_valid_utf8, runes, pieces, is_space_rune, trim_space, fields,
}
pub use Texts.{span_stop, span_run, Text, codes, text_beq_iff, text_eq}
unfoldable pub use Texts.{
  text_beq, has_prefix, is_space, is_digit, is_letter, all_bytes, span, skip, trim_prefix, join,
  text_ltb, insert_by, sort_by, sort_texts, decimal,
}
pub use Prim.Native.Nat.{ℕ, zero, suc, ◌+◌, ◌-◌, ◌*◌, ◌/◌, ◌%◌, ◌≤◌, ◌<◌, min, max}
pub use Prim.Native.String.{String}
pub use mathlib.Core.Path.{◌≡◌, refl, sym, ap, ◌∙◌, subst}
pub use mathlib.Core.Logic.{◌≢◌, ◌↔◌, ◌⊎◌, inl, inr}
pub use mathlib.Core.Bool.{Bool, true, false, not, ◌&&◌, ◌||◌}
pub use mathlib.Core.Option.{Option, none, some}
pub use mathlib.Core.List.{List, [], ◌∷◌, ◌++◌, map, append-nil, append_assoc}
pub use native.Mathlib.Omega.{arith}
