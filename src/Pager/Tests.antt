-- ===== src/Pager/Tests.antt =====
-- internal/irc/pager/pager.go: a reply of five lines, and the theorems at it.
use mathlib.Core.List.{flatten}
use botje.Prelude.{
  codes, text_beq, false, [], ◌∷◌, some, lookup, remove, drop, length, trim_space, pieces,
  rune_width, is_space_rune, decimal, sort_texts, sort_by, insert_by, arith, ◌≡◌, refl, nat_eq,
}
use botje.Event.{Event}
use botje.Sched.{run_due}
use botje.Pager.{
  Key, key_eq, Stash, Pager, page, to_channel, reply, event_msg, more, more_of, tick, channel_of,
}
use botje.Pager.Pages.{waiting, more_times, reply-waiting, more_of-waiting, more_times-waiting}
use botje.Pager.Timers.{IsTimed}
use botje.Pager.Expiry.{replies, pages, ticks, run, empty, run-IsTimed}

abbrev key : Key
key = record { channel = codes "#a"; nick = codes "bob"; command = codes "wiki" }

abbrev stash : Stash
stash = record {
  msgs = codes "1" ∷ codes "2 {W}(+2)" ∷ codes "3" ∷ codes "4" ∷ [];
  displayed = 2;
  timer = 1;
}

abbrev paged : Pager
paged = record {
  sched = record {
    heap = record { due = 9; seq = 1; fn = some key } ∷ [];
    pending = 1 ∷ [];
    seq = 1;
  };
  stashes = (key, stash) ∷ [];
}

abbrev asked : Event
asked = record {
  name = [];
  bot_nick = [];
  server = [];
  sender = record { nick = codes "bob"; user = []; host = []; user_id = [] };
  sender_me = false;
  channel = codes ":#a ";
  target_me = false;
  query = false;
  msg = [];
  raw = record { prefix = []; cmd = []; params = [] };
  target = [];
  reason = [];
  mode = [];
  topic = [];
  args = [];
  net_split = false;
}

channel_of-asked : channel_of asked ≡ codes "#a"
unfolding channel_of
channel_of-asked = refl

page_two :
    page 2 (codes "1" ∷ codes "2" ∷ codes "3" ∷ codes "4" ∷ [])
    ≡ (codes "1" ∷ codes "2 {W}(+2)" ∷ [], codes "3" ∷ codes "4" ∷ [])
unfolding page decimal
page_two = refl

more-asked : (more 2 asked [] paged).1 ≡ (codes "#a", codes "3") ∷ (codes "#a", codes "4") ∷ []
unfolding more lookup text_beq sort_texts sort_by insert_by
more-asked = refl

event_msg_short :
    (event_msg 5 4 asked (codes "wiki") (codes "one\n \ntwo" ∷ []) empty).1
    ≡ (codes "#a", codes "one") ∷ (codes "#a", codes "two") ∷ []
unfolding event_msg trim_space pieces rune_width is_space_rune flatten
event_msg_short = refl

tick_late : (tick 10 paged).stashes ≡ []
unfolding tick remove text_beq run_due
tick_late = refl

reply-waiting_example :
    ((reply 0 1 key (codes "1" ∷ codes "2" ∷ []) paged).1
      ≡ to_channel (codes "#a") (page 1 (codes "1" ∷ codes "2" ∷ [])).0)
    × (waiting key (reply 0 1 key (codes "1" ∷ codes "2" ∷ []) paged).0
        ≡ drop 1 (codes "1" ∷ codes "2" ∷ []))
reply-waiting_example = reply-waiting 0 1 key (codes "1" ∷ codes "2" ∷ []) paged

more_of-waiting_example :
    ((more_of 1 key paged).1 ≡ to_channel (codes "#a") (page 1 (waiting key paged)).0)
    × (waiting key (more_of 1 key paged).0 ≡ drop 1 (waiting key paged))
more_of-waiting_example = more_of-waiting 1 key stash paged (unfold lookup text_beq in refl)

more_times-waiting_example : waiting key (more_times (length (waiting key paged)) 1 key paged) ≡ []
more_times-waiting_example = more_times-waiting 1 key paged (omega arith)

run-IsTimed_example : IsTimed (
    run
      (replies 0 1 asked (codes "wiki") (codes "1\n2" ∷ []) ∷ pages 1 asked [] ∷ ticks 9 ∷ [])
      empty)
run-IsTimed_example =
    run-IsTimed
      (replies 0 1 asked (codes "wiki") (codes "1\n2" ∷ []) ∷ pages 1 asked [] ∷ ticks 9 ∷ [])
