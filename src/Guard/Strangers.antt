-- ===== src/Guard/Strangers.antt =====
-- modules/guard/guard.go and enforce.go: what a run of joins and messages does while the guard is on.
use botje.Prelude.{
  ℕ, suc, ◌/◌, Text, Bool, true, false, not, ◌&&◌, ◌||◌, List, [], ◌∷◌, ◌++◌, lookup, insert,
  lookup-insert, is_some, arith, ◌≡◌, ◌⊎◌, refl, ◌∙◌, ap, inl, inr, if◌then◌else◌, ◌==◌, text_eq,
  text_beq_iff, nat_eq,
}
use botje.Event.{Event}
use botje.Guard.{
  Settings, Guard, Suspect, Sends, residents_of, is_resident, set_seen, note, is_empty, recent,
  second, mask, enforce, judge_line, judge_join, watch_line, watch_join, seen_line, on_join,
}

-- What the trust set and the switch are after a step.
abbrev Keeps : Guard → Guard → Type 0
Keeps g g' = (g'.residents ≡ g.residents) × (g'.enabled ≡ g.enabled)

enforce-Keeps :
    (conf : Settings) (mk : Text) (s : Suspect) (why : Text) (g : Guard)
    → Keeps g (enforce conf mk s why g).0
unfolding enforce
enforce-Keeps conf mk s why g = (refl, refl)

watch_line-Keeps :
    (conf : Settings) (now : ℕ) (ev : Event) (mk : Text) (g : Guard)
    → Keeps g (watch_line conf now ev mk g).0
unfolding watch_line judge_line enforce
watch_line-Keeps conf now ev mk g = (ground arith, ground arith)

watch_join-Keeps :
    (conf : Settings) (now : ℕ) (ev : Event) (mk : Text) (g : Guard)
    → Keeps g (watch_join conf now ev mk g).0
unfolding watch_join judge_join enforce
watch_join-Keeps conf now ev mk g = (ground arith, ground arith)

is_resident-set_seen :
    (server mk : Text) (now : ℕ) (g : Guard) (server' mk' : Text)
    → is_resident server' mk' (set_seen server mk now g)
      ≡ (server == server' && mk == mk' || is_resident server' mk' g)
unfolding is_resident set_seen
is_resident-set_seen server mk now g server' mk' = ground (
  arith,
  lookup-insert server server' (insert mk now (residents_of server g.residents)) g.residents,
  lookup-insert mk mk' now (residents_of server g.residents),
  text_beq_iff server server',
  text_beq_iff mk mk',
)

-- A sighting is of somebody trusted already.
again-set_seen :
    (server mk : Text) (now : ℕ) (g : Guard) (server' mk' : Text)
    → is_resident server mk g ≡ true
    → is_resident server' mk' (set_seen server mk now g) ≡ is_resident server' mk' g
again-set_seen server mk now g server' mk' known =
    is_resident-set_seen server mk now g server' mk'
    ∙ grind (arith, text_beq_iff server server', text_beq_iff mk mk')

pick-cases {ℓ} :
    {A : Type ℓ} (empty known on fresh : Bool) (old new : A)
    → on ≡ true
    → let picked =
        if empty then old else if not known && on then old else if fresh then old else new in
      (picked ≡ old) ⊎ ((picked ≡ new) × (known ≡ true))
pick-cases true known on fresh old new e = inl refl
pick-cases false true on true old new e = inl refl
pick-cases false true on false old new e = inr (refl, refl)
pick-cases false false true fresh old new e = inl refl
pick-cases false false false fresh old new e = ground arith

note-cases :
    (now : ℕ) (server mk : Text) (g : Guard)
    → g.enabled ≡ true
    → (note now server mk g ≡ g)
      ⊎ ((note now server mk g ≡ set_seen server mk (now / second) g)
          × (is_resident server mk g ≡ true))
unfolding note
note-cases now server mk g on =
    pick-cases (is_empty mk) (is_resident server mk g) g.enabled
      (recent (now / second) (lookup mk (residents_of server g.residents))) g
      (set_seen server mk (now / second) g) on

note-frozen :
    (now : ℕ) (server mk : Text) (g : Guard) (server' mk' : Text)
    → g.enabled ≡ true
    → is_resident server' mk' (note now server mk g) ≡ is_resident server' mk' g
note-frozen now server mk g server' mk' on = elim (note-cases now server mk g on) [
  | inl e ↦ ap (is_resident server' mk') e
  | inr (e, known) ↦
      ap (is_resident server' mk') e ∙ again-set_seen server mk (now / second) g server' mk' known
]

note_enabled : (now : ℕ) (server mk : Text) (g : Guard) → (note now server mk g).enabled ≡ g.enabled
unfolding note set_seen
note_enabled now server mk g = ground arith

Keeps-resident :
    (g g' : Guard) (server mk : Text)
    → Keeps g g'
    → is_resident server mk g' ≡ is_resident server mk g
unfolding is_resident
Keeps-resident g g' server mk kept = ap (λ r. is_some (lookup mk (residents_of server r))) kept.0

after-note :
    (now : ℕ) (at at' : Text) (g g' : Guard) (server mk : Text)
    → g.enabled ≡ true
    → Keeps g g'
    → (is_resident server mk (note now at at' g') ≡ is_resident server mk g)
      × ((note now at at' g').enabled ≡ true)
after-note now at at' g g' server mk on kept = (
  note-frozen now at at' g' server mk (kept.1 ∙ on) ∙ Keeps-resident g g' server mk kept,
  note_enabled now at at' g' ∙ kept.1 ∙ on,
)

watched-Keeps :
    (watched : Bool) (conf : Settings) (now : ℕ) (ev : Event) (mk : Text) (g : Guard)
    → Keeps g
        (if watched
          then watch_join conf now ev mk (record g { strangers = suc g.strangers })
          else (g, [])).0
watched-Keeps true conf now ev mk g =
    watch_join-Keeps conf now ev mk (record g { strangers = suc g.strangers })
watched-Keeps false conf now ev mk g = (refl, refl)

-- A message that is no attempt to authenticate, or a join, with the readings of the clock.
pub data Heard : Type 0 where
  says : ℕ → ℕ → Event → Heard
  joins : ℕ → ℕ → Event → Heard

module _ (lower : Text → Text) (conf : Settings) where
  unfoldable pub hear : Heard → Guard → Guard × List Sends
  unfolding seen_line on_join
  hear (says watch_at note_at ev) g = seen_line lower conf watch_at note_at ev g
  hear (joins watch_at note_at ev) g = on_join lower conf watch_at note_at ev g

  unfoldable pub hear_all : List Heard → Guard → Guard × List Sends
  unfolding hear
  hear_all [] g = (g, [])
  hear_all (h ∷ hs) g =
      let (g', out) = hear h g in let (g'', later) = hear_all hs g' in (g'', out ++ later)

  hear-frozen :
      (h : Heard) (g : Guard) (server mk : Text)
      → g.enabled ≡ true
      → (is_resident server mk (hear h g).0 ≡ is_resident server mk g)
        × ((hear h g).0.enabled ≡ true)
  unfolding hear seen_line on_join
  hear-frozen (says w n ev) g server mk on =
      let who = mask lower ev in
      after-note n ev.server who g (watch_line conf w ev who g).0 server mk on
        (watch_line-Keeps conf w ev who g)
  hear-frozen (joins w n ev) g server mk on =
      let who = mask lower ev in
      let watched = not (is_empty who) && g.enabled && not (is_resident ev.server who g) in
      after-note n ev.server who g _ server mk on (watched-Keeps watched conf w ev who g)

  -- While the guard is on the trust set is frozen: through any joins, and any messages that are no
  -- attempt to authenticate, nobody becomes a resident and nobody stops being one.
  pub hear_all-frozen :
      (hs : List Heard) (g : Guard) (server mk : Text)
      → g.enabled ≡ true
      → is_resident server mk (hear_all hs g).0 ≡ is_resident server mk g
  unfolding hear_all
  hear_all-frozen [] g server mk on = refl
  hear_all-frozen (h ∷ hs) g server mk on =
      let one = hear-frozen h g server mk on in
      hear_all-frozen hs (hear h g).0 server mk one.1 ∙ one.0
