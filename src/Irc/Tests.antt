-- ===== src/Irc/Tests.antt =====
-- internal/irc/parse.go: lines and params, and the theorems at them.
use botje.Prelude.{
  codes, [], ◌∷◌, ◌++◌, ◌≡◌, refl, some, all_bytes, is_space, span, is_digit, is_letter, contains,
}
use botje.Irc.Parse.{parse_line, parse_prefix}
use botje.Irc.Params.{split_params, is_middle}
use botje.Irc.Params.Render.{IsMiddle, render, split_params-render}
use botje.Irc.Frame.{feed, feed-append}

parse_prefix_full : parse_prefix (codes "n!u@h") ≡ (codes "n", codes "u", codes "h")
unfolding parse_prefix contains
parse_prefix_full = refl

parse_line_join :
    parse_line (codes ":n!u@h JOIN #perl")
    ≡ some (record {
      prefix = codes "n!u@h";
      cmd = codes "JOIN";
      name = codes "JOIN";
      code = [];
      params = codes "#perl";
    })
unfolding parse_line is_space span contains all_bytes is_letter is_digit
parse_line_join = refl

perl_IsMiddle : IsMiddle (codes "#perl")
perl_IsMiddle = record {
  bytes = unfold all_bytes is_middle is_space in refl;
  some_byte = λ h. absurd (cc);
}

split_params-render_example :
    split_params (render (codes "#perl" ∷ []) (codes "a") (codes "b c"))
    ≡ (codes "#perl" ∷ []) ++ codes "a:b c" ∷ []
split_params-render_example =
    split_params-render (codes "#perl" ∷ []) (codes "a") (codes "b c") (perl_IsMiddle, tt)
      (unfold all_bytes is_middle is_space in refl)

feed-append_example : feed (codes "ING\r" ++ codes "\nPO") (codes "P") ≡ (
  (feed (codes "ING\r") (codes "P")).0
      ++ (feed (codes "\nPO") (feed (codes "ING\r") (codes "P")).1).0,
  (feed (codes "\nPO") (feed (codes "ING\r") (codes "P")).1).1,
)
feed-append_example = feed-append (codes "P") (codes "ING\r") (codes "\nPO")
