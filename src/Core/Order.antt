-- ===== src/Core/Order.antt =====
-- internal/core/transport.go: what a connection dispatches, over its life.
use botje.Prelude.{
  ℕ, zero, suc, Text, true, false, subst, List, [], ◌∷◌, ◌++◌, append-nil, append_assoc, take,
  if◌then◌else◌, arith, ◌≡◌, refl, ◌∙◌, sym, ap, Bool-cases, inl, inr,
}
use botje.Event.{Event}
use botje.Session.{Session, Output, welcome, join_channels, handle_line, register}
use botje.Session.Welcome.{handle_line-Pays}
use botje.Core.Link.{
  Link, Does, all_dispatched, wired, on_welcomed, follow, on_line, on_lines, connect, is_message,
}
use botje.Core.Held.{
  messages_in, messages_out, messages_out-append, messages_out-wired, messages_out-all_dispatched,
  Messages, kept, follow-holds, follow-passes, join_channels_keeps,
}

append-Messages : (xs ys : List Event) → Messages xs → Messages ys → Messages (xs ++ ys)
append-Messages [] ys a b = b
append-Messages (x ∷ xs) ys a b = (a.0, append-Messages xs ys a.1 b)

messages_in-Messages : (out : List Output) → Messages (messages_in out)
messages_in-Messages [] = tt
messages_in-Messages (Output.emit ev ∷ out) = elim (Bool-cases (is_message ev)) [
  | inl message ↦ rw message (message, messages_in-Messages out)
  | inr quiet ↦ rw quiet (messages_in-Messages out)
]
messages_in-Messages (Output.send t ∷ out) = messages_in-Messages out
messages_in-Messages (Output.send_high t ∷ out) = messages_in-Messages out
messages_in-Messages (welcome ∷ out) = messages_in-Messages out

take-Messages : (n : ℕ) (evs : List Event) → Messages evs → Messages (take n evs)
take-Messages zero evs a = tt
take-Messages (suc n) [] a = tt
take-Messages (suc n) (ev ∷ evs) a = (a.0, take-Messages n evs a.1)

-- What a confirmation does.
confirmed :
    (now : ℕ) (channels : List Text) (l : Link)
    → Messages l.held
    → let (l', does) = follow now channels (welcome ∷ []) l in
      (messages_out does ≡ l.held)
      × (l'.held ≡ [])
      × (l'.session.welcomed ≡ l.session.welcomed)
      × (l'.session.has_welcome ≡ l.session.has_welcome)
unfolding follow on_welcomed
confirmed now channels l a =
    let (s, out) = join_channels now channels l.session in
    let keeps = join_channels_keeps now channels l.session in
    (
      ap messages_out (append-nil (wired out ++ all_dispatched l.held))
          ∙ messages_out-append (wired out) (all_dispatched l.held)
          ∙ ap (λ m. m ++ messages_out (all_dispatched l.held)) (messages_out-wired out)
          ∙ messages_out-all_dispatched l.held a,
      refl,
      keeps.0,
      keeps.1,
    )

follow-confirmed :
    (now : ℕ) (channels : List Text) (out : List Output) (l : Link)
    → out ≡ welcome ∷ []
    → Messages l.held
    → let (l', does) = follow now channels out l in
      (messages_out does ≡ l.held)
      × (l'.held ≡ [])
      × (l'.session.welcomed ≡ l.session.welcomed)
      × (l'.session.has_welcome ≡ l.session.has_welcome)
follow-confirmed now channels out l calls a =
    subst
      (λ o.
        let (l', does) = follow now channels o l in
        (messages_out does ≡ l.held)
        × (l'.held ≡ [])
        × (l'.session.welcomed ≡ l.session.welcomed)
        × (l'.session.has_welcome ≡ l.session.has_welcome))
      (sym calls) (confirmed now channels l a)

-- What is dispatched, and what waits, when `seen` came before.
pub record Dispatched (seen : List Event) (m : List Event × List Event) (r : Link × List Does)
    : Type 0 where
  pub said : messages_out r.1 ≡ (if r.0.session.welcomed then kept (seen ++ m.0) ++ m.1 else [])
  pub waits : r.0.held ≡ (if r.0.session.welcomed then [] else kept (seen ++ m.0))

module _ (lower : Text → Text) (channels : List Text) where
  -- The messages that the lines bring, before the welcome and after it.
  abbrev pub parted : List (ℕ × Text) → Link → List Event × List Event
  parted [] l = ([], [])
  parted ((now, raw) ∷ raws) l =
      let m = messages_in (handle_line lower now raw l.session).1 in
      let (before, after) = parted raws (on_line lower channels now raw l).0 in
      if l.session.welcomed then (before, m ++ after) else (m ++ before, after)

  welcomed-passes :
      (raws : List (ℕ × Text)) (l : Link)
      → l.session.welcomed ≡ true
      → l.session.has_welcome ≡ true
      → l.held ≡ []
      → ((parted raws l).0 ≡ [])
        × (messages_out (on_lines lower channels raws l).1 ≡ (parted raws l).1)
        × ((on_lines lower channels raws l).0.held ≡ [])
        × ((on_lines lower channels raws l).0.session.welcomed ≡ true)
  unfolding on_lines on_line
  welcomed-passes [] l after set none_held = (refl, refl, none_held, after)
  welcomed-passes ((now, raw) ∷ raws) l after set none_held =
      elim (handle_line-Pays lower now raw l.session set) [
        | inl (quiet, same, still) ↦
            let (s', out) = handle_line lower now raw l.session in
            let passes =
              follow-passes now channels out (record l { session = s' }) (same ∙ after) quiet in
            let (f, does) = follow now channels out (record l { session = s' }) in
            let later =
              welcomed-passes raws f (ap (λ (x : Link). x.session.welcomed) passes.1 ∙ same ∙ after)
                (ap (λ (x : Link). x.session.has_welcome) passes.1 ∙ still ∙ set)
                (ap (λ (x : Link). x.held) passes.1 ∙ none_held) in
            let m = messages_in out in
            let (b, a) = parted raws f in
            let split =
              ap {B = List Event × List Event} (λ w. if w then (b, m ++ a) else (m ++ b, a))
                after in
            (
              ap (λ p. p.0) split ∙ later.0,
              messages_out-append does (on_lines lower channels raws f).1
                  ∙ ap (λ x. x ++ messages_out (on_lines lower channels raws f).1) passes.0
                  ∙ ap (λ x. m ++ x) later.1
                  ∙ sym (ap (λ p. p.1) split),
              later.2,
              later.3,
            )
        | inr (before, _, _, _) ↦ absurd (ground (arith, before, after))
      ]

  on_lines-Dispatched :
      (raws : List (ℕ × Text)) (l : Link) (seen : List Event)
      → l.session.welcomed ≡ false
      → l.session.has_welcome ≡ true
      → Messages seen
      → l.held ≡ kept seen
      → Dispatched seen (parted raws l) (on_lines lower channels raws l)
  unfolding on_lines on_line
  on_lines-Dispatched [] l seen before set messages h = record {
    said = sym (ap (λ w. if w then kept (seen ++ []) ++ [] else []) before);
    waits =
        h
        ∙ ap kept (sym (append-nil seen))
        ∙ sym (ap (λ w. if w then [] else kept (seen ++ [])) before);
  }
  on_lines-Dispatched ((now, raw) ∷ raws) l seen before set messages h =
      let (s', out) = handle_line lower now raw l.session in
      let m = messages_in out in
      let (f, does) = follow now channels out (record l { session = s' }) in
      let (l', later) = on_lines lower channels raws f in
      let (b, a) = parted raws f in
      let w' = l'.session.welcomed in
      subst (λ p. Dispatched seen p (l', does ++ later))
        (sym
          (ap {B = List Event × List Event} (λ w. if w then (b, m ++ a) else (m ++ b, a)) before))
        (elim (handle_line-Pays lower now raw l.session set) [
          | inl (quiet, same, still) ↦
              let (unsaid, held, unchanged) =
                follow-holds now channels out (record l { session = s' }) seen (same ∙ before) quiet
                  h in
              let rest =
                on_lines-Dispatched raws f (seen ++ m)
                  (ap (λ (x : Session). x.welcomed) unchanged ∙ same ∙ before)
                  (ap (λ (x : Session). x.has_welcome) unchanged ∙ still ∙ set)
                  (append-Messages seen m messages (messages_in-Messages out)) held in
              let order = append_assoc seen m b in
              record {
                said =
                    messages_out-append does later
                    ∙ ap (λ x. x ++ messages_out later) unsaid
                    ∙ rest.said
                    ∙ ap (λ x. if w' then kept x ++ a else []) order;
                waits = rest.waits ∙ ap (λ x. if w' then [] else kept x) order;
              }
          | inr (_, after, still, calls) ↦
              let done =
                follow-confirmed now channels out (record l { session = s' }) calls
                  (subst Messages (sym h) (take-Messages 64 seen messages)) in
              let passes = welcomed-passes raws f (done.2 ∙ after) (done.3 ∙ still ∙ set) done.1 in
              let none_new = ap messages_in calls in
              let all_before =
                h
                ∙ ap kept (sym (append-nil seen))
                ∙ sym (ap (λ x. kept (seen ++ x)) (ap (λ x. x ++ b) none_new ∙ passes.0)) in
              record {
                said =
                    messages_out-append does later
                    ∙ ap (λ x. x ++ messages_out later) (done.0 ∙ all_before)
                    ∙ ap (λ x. kept (seen ++ (m ++ b)) ++ x) passes.1
                    ∙ sym (ap (λ w. if w then kept (seen ++ (m ++ b)) ++ a else []) passes.3);
                waits =
                    passes.2 ∙ sym (ap (λ w. if w then [] else kept (seen ++ (m ++ b))) passes.3);
              }
        ])

  -- On a new connection, whatever lines come: until the welcome no message is dispatched and the
  -- first 64 wait, in order; from then on none waits, and what has been dispatched are those 64 and
  -- then every message after the welcome, each once and in the order in which they came.
  pub connect-Dispatched :
      (network nick : Text) (raws : List (ℕ × Text))
      → Dispatched []
          (parted raws (connect network nick).0)
          (on_lines lower channels raws (connect network nick).0)
  unfolding connect register botje.Session.new_session
  connect-Dispatched network nick raws =
      on_lines-Dispatched raws (connect network nick).0 [] refl refl tt refl
