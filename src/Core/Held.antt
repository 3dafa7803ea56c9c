-- ===== src/Core/Held.antt =====
-- internal/core/transport.go: the messages that arrive before the welcome.
use botje.Prelude.{
  ℕ, zero, suc, ◌≤◌, Text, true, false, List, [], ◌∷◌, ◌++◌, append-nil, append_assoc, All, length,
  length-append, take, take_all, take-append_short, ltb, tests, text_eq, if◌then◌else◌, arith, ◌≡◌,
  refl, ◌∙◌, sym, ap, Bool-cases, is_some, lookup, inl, inr,
}
use botje.Event.{Event}
use botje.Session.{
  Session, Output, send, send_high, emit, welcome, join_channels, put_channel, joined_at,
}
use botje.Session.Welcome.{count_welcome}
use botje.Core.Link.{
  Link, Does, wire, wire_high, dispatches, is_message, max_held, on_emit, all_dispatched, wired,
  follow,
}

-- The messages among the events that a session emits, and among what is dispatched.
abbrev pub messages_in : List Output → List Event
messages_in [] = []
messages_in (emit ev ∷ out) = (if is_message ev then ev ∷ [] else []) ++ messages_in out
messages_in (_ ∷ out) = messages_in out

abbrev pub messages_out : List Does → List Event
messages_out [] = []
messages_out (dispatches ev ∷ does) = (if is_message ev then ev ∷ [] else []) ++ messages_out does
messages_out (_ ∷ does) = messages_out does

pub messages_out-append :
    (xs ys : List Does) → messages_out (xs ++ ys) ≡ messages_out xs ++ messages_out ys
messages_out-append [] ys = refl
messages_out-append (wire t ∷ xs) ys = messages_out-append xs ys
messages_out-append (wire_high t ∷ xs) ys = messages_out-append xs ys
messages_out-append (dispatches ev ∷ xs) ys =
    ap (λ m. (if is_message ev then ev ∷ [] else []) ++ m) (messages_out-append xs ys)
    ∙ sym (append_assoc (if is_message ev then ev ∷ [] else []) (messages_out xs) (messages_out ys))

abbrev pub Messages : List Event → Type 0
Messages evs = All (λ ev. is_message ev ≡ true) evs

pub messages_out-wired : (out : List Output) → messages_out (wired out) ≡ []
messages_out-wired [] = refl
messages_out-wired (send t ∷ out) = messages_out-wired out
messages_out-wired (send_high t ∷ out) = messages_out-wired out
messages_out-wired (emit ev ∷ out) = messages_out-wired out
messages_out-wired (welcome ∷ out) = messages_out-wired out

pub messages_out-all_dispatched :
    (evs : List Event) → Messages evs → messages_out (all_dispatched evs) ≡ evs
messages_out-all_dispatched [] a = refl
messages_out-all_dispatched (ev ∷ evs) a =
    rw a.0 (ap (λ m. ev ∷ m) (messages_out-all_dispatched evs a.1))

-- The first that there is room for.
abbrev pub kept : List Event → List Event
kept evs = take max_held evs

length-take_long : {A : Type 0} (n : ℕ) (xs : List A) → n ≤ length xs → n ≤ length (take n xs)
length-take_long zero xs h = omega arith
length-take_long (suc n) [] h = absurd (omega arith)
length-take_long (suc n) (x ∷ xs) h = omega (arith, length-take_long n xs (omega arith))

held-one :
    (seen : List Event) (ev : Event)
    → (if ltb (length (kept seen)) max_held then kept seen ++ ev ∷ [] else kept seen)
      ≡ kept (seen ++ ev ∷ [])
held-one seen ev = elim (Bool-cases (ltb (length seen) max_held)) [
  | inl room ↦
      let all = take_all max_held seen (omega (tests, room)) in
      rw all (
        rw room (
          sym (
            take_all max_held (seen ++ ev ∷ [])
              (omega (tests, room, length-append seen (ev ∷ []))))))
  | inr full ↦
      rw (ltb_full (length (kept seen)) (length-take_long max_held seen (omega (tests, full))))
        (sym (take-append_short max_held seen (ev ∷ []) (omega (tests, full))))
]
  where
    ltb_full : (m : ℕ) → max_held ≤ m → ltb m max_held ≡ false
    ltb_full m h = ground arith

abbrev if_message : Event → List Event
if_message ev = if is_message ev then ev ∷ [] else []

emit-holds :
    (ev : Event) (l : Link) (seen : List Event)
    → l.session.welcomed ≡ false
    → l.held ≡ kept seen
    → (messages_out (on_emit ev l).1 ≡ [])
      × ((on_emit ev l).0.held ≡ kept (seen ++ if_message ev))
      × ((on_emit ev l).0.session ≡ l.session)
unfolding on_emit
emit-holds ev l seen before h = elim (Bool-cases (is_message ev)) [
  | inl message ↦ rw message (
      rw before (
        let one =
          ap (λ (x : List Event). if ltb (length x) max_held then x ++ ev ∷ [] else x) h
          ∙ held-one seen ev in
        elim (Bool-cases (ltb (length l.held) max_held)) [
          | inl room ↦
              rw room
                (refl, sym (ap (λ b. if b then l.held ++ ev ∷ [] else l.held) room) ∙ one, refl)
          | inr full ↦
              rw full
                (refl, sym (ap (λ b. if b then l.held ++ ev ∷ [] else l.held) full) ∙ one, refl)
        ]))
  | inr quiet ↦
      rw quiet (
        ap (λ b. (if b then ev ∷ [] else []) ++ []) quiet,
        h ∙ ap kept (sym (append-nil seen)),
        refl,
      )
]

emit-passes :
    (ev : Event) (l : Link) → l.session.welcomed ≡ true → on_emit ev l ≡ (l, dispatches ev ∷ [])
unfolding on_emit
emit-passes ev l after = ground (arith, after)

-- Before the welcome nothing is dispatched, and what there is room for is held.
pub follow-holds :
    (now : ℕ) (channels : List Text) (out : List Output) (l : Link) (seen : List Event)
    → l.session.welcomed ≡ false
    → count_welcome out ≡ 0
    → l.held ≡ kept seen
    → (messages_out (follow now channels out l).1 ≡ [])
      × ((follow now channels out l).0.held ≡ kept (seen ++ messages_in out))
      × ((follow now channels out l).0.session ≡ l.session)
unfolding follow
follow-holds now channels [] l seen before none_left h =
    (refl, h ∙ ap kept (sym (append-nil seen)), refl)
follow-holds now channels (send t ∷ out) l seen before none_left h =
    follow-holds now channels out l seen before none_left h
follow-holds now channels (send_high t ∷ out) l seen before none_left h =
    follow-holds now channels out l seen before none_left h
follow-holds now channels (welcome ∷ out) l seen before none_left h = absurd (omega arith)
follow-holds now channels (emit ev ∷ out) l seen before none_left h =
    let (l', does) = on_emit ev l in
    let (quiet, held, same) = emit-holds ev l seen before h in
    let (later, more, still) =
      follow-holds now channels out l' (seen ++ if_message ev)
        (ap (λ (s : Session). s.welcomed) same ∙ before) none_left held in
    (
      messages_out-append does (follow now channels out l').1 ∙ rw (quiet, later) refl,
      more ∙ ap kept (append_assoc seen (if_message ev) (messages_in out)),
      still ∙ same,
    )

pub join_channels_keeps :
    (now : ℕ) (chs : List Text) (s : Session)
    → ((join_channels now chs s).0.welcomed ≡ s.welcomed)
      × ((join_channels now chs s).0.has_welcome ≡ s.has_welcome)
unfolding join_channels
join_channels_keeps now [] s = (refl, refl)
join_channels_keeps now (ch ∷ chs) s =
    let marked = if is_some (lookup ch s.channels) then s else put_channel ch (joined_at now) s in
    let later = join_channels_keeps now chs marked in
    (later.0 ∙ ground arith, later.1 ∙ ground arith)

-- After it, every message is dispatched, and none is held.
pub follow-passes :
    (now : ℕ) (channels : List Text) (out : List Output) (l : Link)
    → l.session.welcomed ≡ true
    → count_welcome out ≡ 0
    → (messages_out (follow now channels out l).1 ≡ messages_in out)
      × ((follow now channels out l).0 ≡ l)
unfolding follow on_emit
follow-passes now channels [] l after none_left = (refl, refl)
follow-passes now channels (send t ∷ out) l after none_left =
    follow-passes now channels out l after none_left
follow-passes now channels (send_high t ∷ out) l after none_left =
    follow-passes now channels out l after none_left
follow-passes now channels (welcome ∷ out) l after none_left = absurd (omega arith)
follow-passes now channels (emit ev ∷ out) l after none_left =
    let (later, still) = follow-passes now channels out l after none_left in
    rw (emit-passes ev l after) (rw later refl, still)
