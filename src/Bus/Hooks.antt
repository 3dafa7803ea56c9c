-- ===== src/Bus/Hooks.antt =====
-- internal/bus/bus.go: the hooks of an event and their modules.
use botje.Prelude.{
  Text, true, ◌||◌, List, [], ◌∷◌, Option, none, some, lookup, lookup-insert, lookup-map_values,
  on_some, delete_if, contains, distinct, arith, ◌≡◌, refl, subst, Bool-cases, inl, inr, ◌==◌,
  text_eq, text_beq_iff, contains-nil,
}
use botje.Event.{Event}
use botje.Bus.{Script, Hook, Bus, set_hook, hook_on, hook_in, unhook}

module _ {P : Type 0} where
  abbrev pub owners_of : List (Hook P) → List Text
  owners_of [] = []
  owners_of (h ∷ hs) = h.owner ∷ owners_of hs

  -- No event has two hooks of one module.
  abbrev pub OneEach : Bus P → Type 0
  OneEach b =
      (event : Text) (hs : List (Hook P))
      → lookup event b.events ≡ some hs
      → distinct (owners_of hs) ≡ true

  contains-set_hook :
      (o x : Text) (h : Event → Script P) (hs : List (Hook P))
      → contains x (owners_of (set_hook o h hs)) ≡ (o == x || contains x (owners_of hs))
  unfolding set_hook contains
  contains-set_hook o x h [] = refl
  contains-set_hook o x h (y ∷ hs) = ground (
    arith,
    contains-set_hook o x h hs,
    text_beq_iff y.owner o,
    text_beq_iff o x,
    text_beq_iff y.owner x,
  )

  set_hook-distinct :
      (o : Text) (h : Event → Script P) (hs : List (Hook P))
      → distinct (owners_of hs) ≡ true
      → distinct (owners_of (set_hook o h hs)) ≡ true
  unfolding set_hook distinct
  set_hook-distinct o h [] d = rw (contains-nil o)
  set_hook-distinct o h (y ∷ hs) d = ground (
    arith,
    set_hook-distinct o h hs,
    contains-set_hook o y.owner h hs,
    text_beq_iff y.owner o,
    text_beq_iff o y.owner,
  )

  -- `RegisterHook` keeps at most one hook of a module for an event.
  pub hook_on-OneEach :
      (o event : Text) (h : Event → Script P) (b : Bus P)
      → OneEach b
      → OneEach (hook_on o event h b).1
  unfolding hook_on hook_in
  hook_on-OneEach o event h b u e hs found = by_hooks (lookup event b.events) refl
    where
      by_hooks :
          (x : Option (List (Hook P))) → lookup event b.events ≡ x → distinct (owners_of hs) ≡ true
      by_hooks none z = u e hs (ground (arith, z, found))
      by_hooks (some old) z = elim (Bool-cases (event == e)) [
        | inl same ↦
            subst (λ l. distinct (owners_of l) ≡ true)
              (ground (arith, z, found, same, lookup-insert event e (set_hook o h old) b.events))
              (set_hook-distinct o h old (u event old z))
        | inr other ↦
            u e hs
              (ground (arith, z, found, other, lookup-insert event e (set_hook o h old) b.events))
      ]

  -- After `UnregisterModule` no hook of the module is left for any event, and the others stand as
  -- they did.
  pub lookup-unhook :
      (o event : Text) (b : Bus P)
      → lookup event (unhook o b).events
        ≡ on_some (delete_if (λ (x : Hook P). x.owner == o)) (lookup event b.events)
  unfolding unhook
  lookup-unhook o event b = lookup-map_values _ event b.events
