-- ===== src/Pager/Expiry.antt =====
-- internal/irc/pager/pager.go: replies, `!more` and expiries in any order.
use botje.Prelude.{
  ℕ, ◌+◌, ◌≤◌, Map, Text, contains, distinct, true, false, List, [], ◌∷◌, Option, some, lookup,
  insert, lookup-insert, length, All, ◌==◌, nat_eq, ltb, ◌≡◌, refl, ◌∙◌, sym, ap, Bool-cases,
  Option-cases, inl, inr,
}
use botje.Event.{Event}
use botje.Sched.{Timer, collect, run_due}
use botje.Sched.Tags.{seqs, collect-All, collect-distinct, collect-apart, collect-pending}
use botje.Pager.{
  Key, key_eq, key_beq_iff, Stash, Pager, drop_stash, reply, lines_of, channel_of, event_msg,
  next_page, more_of, choose, more, tick, expire_all,
}
use botje.Pager.Owned.{Owned, expire-Owned}
use botje.Pager.Timers.{IsTimed, Waits, drop_stash-IsTimed, lookup-drop_stash, stash_lines-IsTimed}

reply-IsTimed :
    (now max : ℕ) (key : Key) (lines : List Text) (p : Pager)
    → IsTimed p
    → IsTimed (reply now max key lines p).0
unfolding reply
reply-IsTimed now max key lines p i = elim (Bool-cases (ltb max (length lines))) [
  | inl long ↦ rw long (
      stash_lines-IsTimed now max key _ (drop_stash key p) (lookup-drop_stash key p)
        (drop_stash-IsTimed key p i))
  | inr short ↦ rw short (drop_stash-IsTimed key p i)
]

event_msg-IsTimed :
    (now max : ℕ) (ev : Event) (command : Text) (msgs : List Text) (p : Pager)
    → IsTimed p
    → IsTimed (event_msg now max ev command msgs p).0
unfolding event_msg
event_msg-IsTimed now max ev command msgs p i = by_channel (channel_of ev) refl
  where
    by_channel : (c : Text) → channel_of ev ≡ c → IsTimed (event_msg now max ev command msgs p).0
    by_channel [] e = rw (e, event_msg) i
    by_channel (c ∷ cs) e = rw (e, event_msg) (reply-IsTimed now max _ (lines_of msgs) p i)

-- The stash is written again, with the timer that it had.
again-Owned :
    (m : Map Key Stash) (key : Key) (old st : Stash) (ts : List (Timer Key))
    → lookup key m ≡ some old
    → old.timer ≡ st.timer
    → All (Owned m) ts
    → All (Owned (insert key st m)) ts
again-Owned m key old st [] there same a = tt
again-Owned m key old st (t ∷ ts) there same a = (
  (λ k e.
      let (found, at, tag) = a.0 k e in
      elim (Bool-cases (key == k)) [
        | inl itself ↦
            let was : some old ≡ some found =
              sym there ∙ ap (λ i. lookup i m) ((key_beq_iff key k).0 itself) ∙ at in
            (
              st,
              lookup-insert key k st m ∙ rw itself refl,
              sym same ∙ ap (λ (s : Stash). s.timer) (same_value was) ∙ tag,
            )
        | inr away ↦ (found, lookup-insert key k st m ∙ rw away at, tag)
      ]),
  again-Owned m key old st ts there same a.1,
)
  where
    same_value : {a b : Stash} → ◌≡◌ {A = Option Stash} (some a) (some b) → a ≡ b
    same_value h = cc

next_page-IsTimed :
    (max : ℕ) (key : Key) (st : Stash) (p : Pager)
    → lookup key p.stashes ≡ some st
    → IsTimed p
    → IsTimed (next_page max key st p).0
unfolding next_page
next_page-IsTimed max key st p there i =
    elim (Bool-cases (ltb (st.displayed + max) (length st.msgs))) [
      | inl left ↦ rw left (record {
        known = i.known;
        once = i.once;
        waits = i.waits;
        owned = again-Owned p.stashes key st _ p.sched.heap there refl i.owned;
      })
      | inr done ↦ rw done (drop_stash-IsTimed key p i)
    ]

more_of-IsTimed : (max : ℕ) (key : Key) (p : Pager) → IsTimed p → IsTimed (more_of max key p).0
unfolding more_of
more_of-IsTimed max key p i = elim (Option-cases (lookup key p.stashes)) [
  | inl e ↦ rw (e, more_of) i
  | inr (st, e) ↦ rw (e, more_of) (next_page-IsTimed max key st p e i)
]

choose-IsTimed :
    (max : ℕ) (channel nick : Text) (pending : List Text) (requested : Text) (p : Pager)
    → IsTimed p
    → IsTimed (choose max channel nick pending requested p).0
unfolding choose
choose-IsTimed max channel nick [] requested p i = i
choose-IsTimed max channel nick (c ∷ []) [] p i = more_of-IsTimed max _ p i
choose-IsTimed max channel nick (c ∷ d ∷ cs) [] p i = i
choose-IsTimed max channel nick (c ∷ cs) (r ∷ rs) p i = more_of-IsTimed max _ p i

more-IsTimed :
    (max : ℕ) (ev : Event) (requested : Text) (p : Pager)
    → IsTimed p
    → IsTimed (more max ev requested p).0
unfolding more
more-IsTimed max ev requested p i = by_channel (channel_of ev) refl
  where
    by_channel : (c : Text) → channel_of ev ≡ c → IsTimed (more max ev requested p).0
    by_channel [] e = rw (e, more) i
    by_channel (c ∷ cs) e = rw (e, more) (choose-IsTimed max _ _ _ requested p i)

-- What stays in the heap is still owned when the stashes of what fires are gone.
left-Owned :
    (due left : List (Timer Key)) (m : Map Key Stash)
    → All (Owned m) due
    → distinct (seqs due) ≡ true
    → All (λ u. contains u.seq (seqs due) ≡ false) left
    → All (Owned m) left
    → All (Owned (expire_all due m)) left
left-Owned due [] m a d n o = tt
left-Owned due (u ∷ us) m a d n o =
    (expire-Owned due m u a d n.0 o.0, left-Owned due us m a d n.1 o.1)

left-Waits :
    (now : ℕ) (ts : List (Timer Key)) (pending : List ℕ) (left : List (Timer Key))
    → All (λ u. contains u.seq (seqs (collect now ts pending).0) ≡ false) left
    → All (Waits pending) left
    → All (Waits (collect now ts pending).2) left
left-Waits now ts pending [] n w = tt
left-Waits now ts pending (u ∷ us) n w = (
  (λ k e. collect-pending u.seq now ts pending (w.0 k e) n.0),
  left-Waits now ts pending us n.1 w.1,
)

tick-IsTimed : (now : ℕ) (p : Pager) → IsTimed p → IsTimed (tick now p)
unfolding tick run_due
tick-IsTimed now p i =
    let heap = p.sched.heap in
    let pending = p.sched.pending in
    let apart = collect-apart now heap pending i.once in
    let owned = collect-All (Owned p.stashes) now heap pending i.owned in
    let once = collect-distinct now heap pending i.once in
    record {
      known = (collect-All (λ t. t.seq ≤ p.sched.seq) now heap pending i.known).1;
      once = once.1;
      waits =
          left-Waits now heap pending (collect now heap pending).1 apart
            (collect-All (Waits pending) now heap pending i.waits).1;
      owned =
          left-Owned (collect now heap pending).0 (collect now heap pending).1 p.stashes owned.0
            once.0 apart owned.1;
    }

-- What the dispatcher does with the pager: a reply, `!more`, or the timers that are due.
pub data Op : Type 0 where
  replies : ℕ → ℕ → Event → Text → List Text → Op
  pages : ℕ → Event → Text → Op
  ticks : ℕ → Op

unfoldable pub apply : Op → Pager → Pager
unfolding event_msg more tick
apply (replies now max ev command msgs) p = (event_msg now max ev command msgs p).0
apply (pages max ev requested) p = (more max ev requested p).0
apply (ticks now) p = tick now p

unfoldable pub run : List Op → Pager → Pager
unfolding apply
run [] p = p
run (op ∷ ops) p = run ops (apply op p)

abbrev pub empty : Pager
empty = record { sched = record { heap = []; pending = []; seq = 0 }; stashes = [] }

run-IsTimed_from : (ops : List Op) (p : Pager) → IsTimed p → IsTimed (run ops p)
unfolding run apply
run-IsTimed_from [] p i = i
run-IsTimed_from (replies now max ev command msgs ∷ ops) p i =
    run-IsTimed_from ops _ (event_msg-IsTimed now max ev command msgs p i)
run-IsTimed_from (pages max ev requested ∷ ops) p i =
    run-IsTimed_from ops _ (more-IsTimed max ev requested p i)
run-IsTimed_from (ticks now ∷ ops) p i = run-IsTimed_from ops _ (tick-IsTimed now p i)

-- In any order of replies, requests and expiries, from an empty pager on: a timer that can still
-- fire belongs to the stash that it would delete, as that stash's own timer, and can be cancelled.
pub run-IsTimed : (ops : List Op) → IsTimed (run ops empty)
unfolding distinct
run-IsTimed ops =
    run-IsTimed_from ops empty (record { known = tt; once = refl; waits = tt; owned = tt })
