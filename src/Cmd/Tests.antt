-- ===== src/Cmd/Tests.antt =====
-- internal/irc/cmd/cmd.go: a registry with one word of two modules, and the theorems at it.
use botje.Prelude.Int.{pos}
use botje.Prelude.{
  ℕ, codes, true, false, ◌==◌, text_eq, text_beq, List, [], ◌∷◌, ◌++◌, map, some, lookup, insert,
  keys, is_space, is_digit, is_letter, span, contains, delete_if, sort_texts, sort_by, insert_by,
  trim_space, if◌then◌else◌, ◌≡◌, refl, runes, rune_width, join,
}
use botje.Event.{Event}
use botje.Cmd.{
  Data, returned, panicked, Handler, Registration, Registry, replied, register, registered, has,
  commands_of, unregister_module, match_cmd, handle, handle_unknown, run_defaults, suggest,
}
use botje.Cmd.Levenshtein.{levenshtein, edit_distance, backwards, levenshtein-edit_distance}
use botje.Cmd.Dispatch.{
  call_of, given, panics, owners_that, owned_by_any, handle_known_calls, registered-handle,
}
use botje.Cmd.Defaults.{some_handles, count_replied, handle_unknown_replies}

abbrev always : Handler
always d = returned true

abbrev never : Handler
never d = panicked

abbrev both : List Registration
both =
    record { owner = codes "karma"; fn = always } ∷ record { owner = codes "rss"; fn = never } ∷ []

abbrev small : Registry
small = record {
  has_reply = true;
  commands = (codes "hi", both) ∷ [];
  defaults =
      record { owner = codes "markov"; priority = pos 5; cont = false; fn = always; dead = false }
      ∷ [];
}

abbrev said : Event
said = record {
  name = codes "IRC_PRIVMSG";
  bot_nick = codes "botje";
  server = codes "net";
  sender = record { nick = codes "Bob"; user = codes "b"; host = codes "host"; user_id = [] };
  sender_me = false;
  channel = codes "#perl";
  target_me = false;
  query = false;
  msg = codes "!hi there";
  raw = record { prefix = []; cmd = []; params = [] };
  target = [];
  reason = [];
  mode = [];
  topic = [];
  args = [];
  net_split = false;
}

abbrev dice : ℕ → ℕ
dice n = 0

has_hi : has (codes "hi") small ≡ true
unfolding has lookup text_beq
has_hi = refl

commands_of-small : commands_of small ≡ codes "hi" ∷ []
unfolding commands_of keys sort_texts sort_by insert_by
commands_of-small = refl

register_again : register (codes "rss") (codes "hi") always small ≡ record small {
  commands =
      (
        codes "hi",
        record { owner = codes "karma"; fn = always }
            ∷ record { owner = codes "rss"; fn = always }
            ∷ [],
      )
      ∷ [];
}
unfolding register lookup insert text_beq
register_again = refl

unregister_markov : (unregister_module (codes "markov") small).defaults ≡ []
unfolding unregister_module text_beq
unregister_markov = refl

matched : match_cmd said.msg ≡ some (codes "hi", codes "there")
unfolding match_cmd span is_space is_digit is_letter contains
matched = refl

found : lookup (codes "hi") small.commands ≡ some both
unfolding lookup text_beq
found = refl

levenshtein-edit_distance_example :
    levenshtein (codes "kitten") (codes "sitting")
    ≡ edit_distance (backwards (runes (codes "kitten"))) (backwards (runes (codes "sitting")))
levenshtein-edit_distance_example = levenshtein-edit_distance (codes "kitten") (codes "sitting")

handle_known_calls_example :
    ((handle dice said small).0 ≡ true)
    × ((handle dice said small).1
        ≡ map (call_of (given dice said small (codes "hi") (codes "there") both)) both)
handle_known_calls_example =
    handle_known_calls dice said small (codes "hi") (codes "there") both matched found

registered-handle_example : registered (codes "hi") (handle dice said small).2 ≡ (
    if codes "hi" == codes "hi"
    then delete_if
        (owned_by_any
          (owners_that (panics (given dice said small (codes "hi") (codes "there") both)) both))
        (registered (codes "hi") small)
    else registered (codes "hi") small)
registered-handle_example =
    registered-handle dice said small (codes "hi") (codes "there") both matched found (codes "hi")

abbrev unknown_data : Data
unknown_data = record {
  command = [];
  text = trim_space (codes "ho" ++ (codes " " ++ codes "ho"));
  event = said;
}

handle_unknown_replies_example :
    count_replied (handle_unknown dice said (codes "ho") (codes "ho") small).0 ≡ (
      if some_handles unknown_data false small.defaults
      then 0
      else count_replied (suggest dice said (codes "ho") (run_defaults unknown_data false small).2))
handle_unknown_replies_example = handle_unknown_replies dice said (codes "ho") (codes "ho") small

suggest_hi :
    suggest dice said (codes "ho") small ≡ replied (codes "Bob: Maybe you meant: {W}hi{/}?") ∷ []
unfolding suggest levenshtein keys sort_texts sort_by insert_by runes rune_width text_beq join
suggest_hi = refl
