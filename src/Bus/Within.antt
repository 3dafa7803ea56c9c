-- ===== src/Bus/Within.antt =====
-- internal/bus/bus.go: the pairs of module and event under which hooks may come to stand.
use botje.Prelude.{
  ℕ, ◌+◌, ◌≤◌, ◌<◌, Text, Bool, true, false, List, [], ◌∷◌, Option, none, some, All, lookup, insert,
  lookup-insert, lookup-map_values, on_some, is_some, length, text_eq, text_beq_iff, delete_if,
  contains, if◌then◌else◌, arith, ◌≡◌, ◌∙◌, sym, ap, subst, Bool-cases, inl, inr, ◌==◌,
}
use botje.Event.{Event}
use botje.Bus.{
  Script, finish, panic, register_event, register_hook, unregister_module, submit, HookId, id_eq,
  id_beq_iff, Hook, Bus, declare, set_hook, hook_in, hook_on, unhook,
}

-- How many of the pairs are not on the chain.
abbrev pub free : List HookId → List HookId → ℕ
free [] chain = 0
free (id ∷ ids) chain = (if contains id chain then 0 else 1) + free ids chain

pub free_le : (ids chain : List HookId) → free ids chain ≤ length ids
free_le [] chain = omega arith
free_le (id ∷ ids) chain = elim (Bool-cases (contains id chain)) [
  | inl on ↦ rw on (omega (arith, free_le ids chain))
  | inr off ↦ rw off (omega (arith, free_le ids chain))
]

free-cons_le : (id : HookId) (ids chain : List HookId) → free ids (id ∷ chain) ≤ free ids chain
unfolding contains
free-cons_le id [] chain = omega arith
free-cons_le id (i ∷ ids) chain = ground (arith, free-cons_le id ids chain)

-- A call takes a pair that was free.
pub free-cons :
    (id : HookId) (ids chain : List HookId)
    → contains id ids ≡ true
    → contains id chain ≡ false
    → free ids (id ∷ chain) < free ids chain
unfolding contains
free-cons id [] chain there off = absurd (ground (arith, there))
free-cons id (i ∷ ids) chain there off = elim (Bool-cases (i == id)) [
  | inl same ↦
      let eq = (id_beq_iff i id).0 same in
      let back = (id_beq_iff id i).1 (sym eq) in
      let off' = ap (λ x. contains x chain) eq ∙ off in
      rw back (rw off' (omega (arith, free-cons_le id ids chain)))
  | inr other ↦
      let later = free-cons id ids chain (ground (arith, there, other)) off in ground (arith, later)
]

module _ {P : Type 0} (ids : List HookId) where
  -- A handler registers hooks only under these pairs, and their handlers do so too.
  abbrev pub Within : Script P → Type 0
  Within (finish code payload) = Unit
  Within panic = Unit
  Within (register_event name k) = Within k
  Within (register_hook owner event h k) =
      (contains (owner, event) ids ≡ true)
      × ((ev : Event) → Within (h ev))
      × ((done : Bool) → Within (k done))
  Within (unregister_module owner k) = Within k
  Within (submit ev k) = (payloads : List P) → Within (k payloads)

  -- The hooks of an event stand under these pairs, with such handlers.
  abbrev pub AllWithin : Text → List (Hook P) → Type 0
  AllWithin event hs =
      All
        (λ (h : Hook P). (contains (h.owner, event) ids ≡ true) × ((ev : Event) → Within (h.fn ev)))
        hs

  abbrev pub InHooks : Text → Option (List (Hook P)) → Type 0
  InHooks event none = Unit
  InHooks event (some hs) = AllWithin event hs

  pub record Inside (b : Bus P) : Type 0 where
    pub hooks : (event : Text) → InHooks event (lookup event b.events)

  insert-Inside :
      (event : Text) (hs : List (Hook P)) (b : Bus P)
      → AllWithin event hs
      → Inside b
      → Inside (record b { events = insert event hs b.events })
  insert-Inside event hs b a v = record {
    hooks = λ e.
        subst (InHooks e) (sym (lookup-insert event e hs b.events))
          (elim (Bool-cases (event == e)) [
            | inl same ↦ rw same (subst (λ x. AllWithin x hs) ((text_beq_iff event e).0 same) a)
            | inr other ↦ rw other (v.hooks e)
          ]);
  }

  pub declare-Inside : (name : Text) (b : Bus P) → Inside b → Inside (declare name b)
  unfolding declare
  declare-Inside name b v = elim (Bool-cases (is_some (lookup name b.events))) [
    | inl old ↦ rw old v
    | inr fresh ↦ rw fresh (insert-Inside name [] b tt v)
  ]

  set_hook-AllWithin :
      (owner event : Text) (h : Event → Script P) (hs : List (Hook P))
      → contains (owner, event) ids ≡ true
      → ((ev : Event) → Within (h ev))
      → AllWithin event hs
      → AllWithin event (set_hook owner h hs)
  unfolding set_hook
  set_hook-AllWithin owner event h [] c w a = ((c, w), tt)
  set_hook-AllWithin owner event h (x ∷ xs) c w a = elim (Bool-cases (x.owner == owner)) [
    | inl same ↦ rw same ((a.0.0, w), a.1)
    | inr other ↦ rw other (a.0, set_hook-AllWithin owner event h xs c w a.1)
  ]

  hook_in-Inside :
      (owner event : Text) (h : Event → Script P) (o : Option (List (Hook P))) (b : Bus P)
      → contains (owner, event) ids ≡ true
      → ((ev : Event) → Within (h ev))
      → InHooks event o
      → Inside b
      → Inside (hook_in owner event h o b).1
  unfolding hook_in
  hook_in-Inside owner event h none b c w a v = v
  hook_in-Inside owner event h (some hs) b c w a v =
      insert-Inside event (set_hook owner h hs) b (set_hook-AllWithin owner event h hs c w a) v

  pub hook_on-Inside :
      (owner event : Text) (h : Event → Script P) (b : Bus P)
      → contains (owner, event) ids ≡ true
      → ((ev : Event) → Within (h ev))
      → Inside b
      → Inside (hook_on owner event h b).1
  unfolding hook_on
  hook_on-Inside owner event h b c w v =
      hook_in-Inside owner event h (lookup event b.events) b c w (v.hooks event) v

  delete_if-AllWithin :
      (p : Hook P → Bool) (event : Text) (hs : List (Hook P))
      → AllWithin event hs
      → AllWithin event (delete_if p hs)
  delete_if-AllWithin p event [] a = tt
  delete_if-AllWithin p event (x ∷ xs) a = elim (Bool-cases (p x)) [
    | inl out ↦ rw out (delete_if-AllWithin p event xs a.1)
    | inr stays ↦ rw stays (a.0, delete_if-AllWithin p event xs a.1)
  ]

  on_some-InHooks :
      (p : Hook P → Bool) (event : Text) (o : Option (List (Hook P)))
      → InHooks event o
      → InHooks event (on_some (delete_if p) o)
  on_some-InHooks p event none a = tt
  on_some-InHooks p event (some hs) a = delete_if-AllWithin p event hs a

  pub unhook-Inside : (owner : Text) (b : Bus P) → Inside b → Inside (unhook owner b)
  unfolding unhook
  unhook-Inside owner b v = record {
    hooks = λ e.
        let p = λ (x : Hook P). x.owner == owner in
        subst (InHooks e) (sym (lookup-map_values (delete_if p) e b.events))
          (on_some-InHooks p e (lookup e b.events) (v.hooks e));
  }
