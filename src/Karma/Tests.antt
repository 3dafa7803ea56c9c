-- ===== src/Karma/Tests.antt =====
-- modules/karma/karma.go: votes on two spellings of an item, and a kick.
use mathlib.Core.List.{flatten}
use botje.Prelude.{
  trim_space, pieces, rune_width, is_space_rune, sort_by, some, Text, codes, text_beq, true, false,
  List, [], ◌∷◌, lookup, insert, decimal, nat_eq, text_eq, ◌≡◌, refl,
}
use botje.Prelude.Int.{pos, negsuc}
use botje.Event.{Event}
use botje.Karma.{Data, Amount, plus_one, minus_one, adjust, get, on_kick, karma_line, why_karma}
use botje.Karma.Votes.{vote, Vote, vote_all, count_here, count_all, vote_all-get}

abbrev same : Text → Text
same t = t

abbrev none_yet : Data
none_yet = record { servers = []; global = [] }

abbrev on_go : Amount → Text → Vote
on_go amount channel = record {
  now = 7;
  item = codes "go";
  amount = amount;
  server = codes "s";
  channel = channel;
  reason = codes "fast";
}

abbrev votes : List Vote
votes =
    on_go minus_one (codes "#a") ∷ on_go minus_one (codes "#b") ∷ on_go plus_one (codes "#b") ∷ []

abbrev kick : Event
kick = record {
  name = [];
  bot_nick = [];
  server = codes "s";
  sender = record { nick = codes "op"; user = []; host = []; user_id = [] };
  sender_me = false;
  channel = codes "#a";
  target_me = true;
  query = false;
  msg = [];
  raw = record { prefix = []; cmd = []; params = [] };
  target = [];
  reason = [];
  mode = [];
  topic = [];
  args = [];
  net_split = false;
}

kicker-loses :
    (get same (codes "op") (codes "s") (codes "#a") (on_kick same 7 kick none_yet)).1 ≡ negsuc 0
unfolding get on_kick lookup insert text_beq
kicker-loses = refl

reason-counted :
    (adjust same 7 (codes "go") plus_one (codes "s") (codes "#a") (codes "no") none_yet).0.0 ≡ pos 1
unfolding adjust lookup
reason-counted = refl

line-says :
    karma_line (codes "go") (codes "now") (negsuc 0, pos 2)
    ≡ codes "Karma for {m}go{/} in this channel is now {m}-1{/} (global karma is {m}2{/})."
unfolding karma_line decimal
line-says = refl

vote_all-get_example :
    get same (codes "go") (codes "s") (codes "#b") (vote_all same votes none_yet) ≡ (
      count_here same
          (codes "go")
          (codes "s")
          (codes "#b")
          votes
          (get same (codes "go") (codes "s") (codes "#b") none_yet).0,
      count_all same (codes "go") votes (get same (codes "go") (codes "s") (codes "#b") none_yet).1,
    )
vote_all-get_example = vote_all-get same votes none_yet (codes "go") (codes "s") (codes "#b")

reasons-listed :
    why_karma same
      (codes "wkd")
      (codes "go")
      (record kick { channel = codes "#b" })
      (vote_all same votes none_yet)
    ≡ some (
        codes "The following reasons were found for the karma decrease of {m}go{/}:"
        ∷ codes "fast: {R}-1{/}"
        ∷ [])
unfolding why_karma text_beq lookup vote insert trim_space flatten pieces rune_width is_space_rune
    sort_by decimal
reasons-listed = refl
