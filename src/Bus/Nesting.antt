-- ===== src/Bus/Nesting.antt =====
-- internal/bus/bus.go: how deep submissions nest. `Submit` refuses a hook that is on the call chain,
-- so over finitely many pairs of module and event the nesting ends.
use botje.Prelude.{
  ℕ, zero, suc, ◌<◌, Text, true, false, List, [], ◌∷◌, Option, none, some, lookup, or_else, length,
  text_eq, delete_if, contains, arith, ◌≡◌, refl, ◌∙◌, sym, ap, subst, Bool-cases, inl, inr, ◌==◌,
}
use botje.Event.{Event}
use botje.Bus.{
  Script, finish, panic, register_event, register_hook, unregister_module, submit, HookId, id_eq,
  Hook, Bus, Outcome, finished, panicked, nothing, replied, stop, declare, hook_on, unhook,
  note_call, run, enter, leave, call, with_payload, each_hook, submit_in,
}
use botje.Bus.Chain.{declare-chain, hook_on-chain, off_again, leave-chain}
use botje.Bus.Within.{
  free, free_le, free-cons, Within, AllWithin, InHooks, Inside, declare-Inside, hook_on-Inside,
  unhook-Inside,
}

module _ {P : Type 0} (ids : List HookId) where
  -- A result, that leaves the bus inside and the chain as it was.
  abbrev pub Returns : {A : Type 0} → Option (A × Bus P) → Bus P → Type 0
  Returns {A = A} o b = (r : A × Bus P) × (o ≡ some r) × Inside ids r.1 × (r.1.chain ≡ b.chain)

  -- What a submission is to do where fewer than `n` pairs are free.
  abbrev Serves : ℕ → (Event → Bus P → Option (List P × Bus P)) → Type 0
  Serves n sub =
      (ev : Event) (b : Bus P) → Inside ids b → free ids b.chain < n → Returns (sub ev b) b

  unhook-chain : (owner : Text) (b : Bus P) → (unhook owner b).chain ≡ b.chain
  unfolding unhook
  unhook-chain owner b = refl

  from_here :
      {A : Type 0} {o : Option (A × Bus P)} (b b' : Bus P)
      → b'.chain ≡ b.chain
      → Returns o b'
      → Returns o b
  from_here b b' same (r, e, inside, kept) = (r, e, inside, kept ∙ same)

  run-Returns :
      (n : ℕ) (sub : Event → Bus P → Option (List P × Bus P))
      → Serves n sub
      → (s : Script P) (b : Bus P) → Within ids s
      → Inside ids b
      → free ids b.chain < n
      → Returns (run sub s b) b
  unfolding run
  run-Returns n sub serves (finish code payload) b w v room =
      ((finished code payload, b), refl, v, refl)
  run-Returns n sub serves panic b w v room = ((panicked, b), refl, v, refl)
  run-Returns n sub serves (register_event name k) b w v room =
      let same = declare-chain name b in
      from_here b (declare name b) same (
        run-Returns n sub serves k (declare name b) w (declare-Inside ids name b v)
          (subst (λ c. free ids c < n) (sym same) room))
  run-Returns n sub serves (register_hook owner event h k) b w v room =
      let (done, b') = hook_on owner event h b in
      let same = hook_on-chain owner event h b in
      from_here b (hook_on owner event h b).1 same (
        run-Returns n sub serves (k done) b' (w.2 done)
          (hook_on-Inside ids owner event h b w.0 w.1 v)
          (subst (λ c. free ids c < n) (sym same) room))
  run-Returns n sub serves (unregister_module owner k) b w v room =
      let same = unhook-chain owner b in
      from_here b (unhook owner b) same (
        run-Returns n sub serves k (unhook owner b) w (unhook-Inside ids owner b v)
          (subst (λ c. free ids c < n) (sym same) room))
  run-Returns n sub serves (submit ev k) b w v room =
      let (q, e, inside, same) = serves ev b v room in
      let (r, e', inside', same') =
        run-Returns n sub serves (k q.0) q.1 (w q.0) inside
          (subst (λ c. free ids c < n) (sym same) room) in
      (r, rw (e, run) e', inside', same' ∙ same)

module _ {P : Type 0} (clock : ℕ → ℕ) (ids : List HookId) where
  leave-Inside :
      (id : HookId) (start : ℕ) (o : Outcome P) (b : Bus P)
      → Inside ids b
      → Inside ids (leave clock id start o b)
  unfolding leave note_call
  leave-Inside id start (finished c p) b v = record { hooks = v.hooks }
  leave-Inside id start panicked b v = unhook-Inside ids id.0 _ (record { hooks = v.hooks })

  call-Returns :
      (n : ℕ) (sub : Event → Bus P → Option (List P × Bus P))
      → Serves ids n sub
      → (id : HookId) (s : Script P) (b : Bus P) → contains id ids ≡ true
      → contains id b.chain ≡ false
      → Within ids s
      → Inside ids b
      → free ids b.chain < suc n
      → Returns ids (call clock sub id s b) b
  unfolding call enter
  call-Returns n sub serves id s b there off w v room =
      let start = clock b.readings in
      let (r, e, inside, same) =
        run-Returns ids n sub serves s (enter clock id b) w (record { hooks = v.hooks })
          (omega (arith, room, free-cons id ids b.chain there off)) in
      (
        (r.0, leave clock id start r.0 r.1),
        rw (e, call) refl,
        leave-Inside id start r.0 r.1 inside,
        leave-chain clock id start r.0 r.1
            ∙ ap (delete_if (λ i. i == id)) same
            ∙ off_again id b.chain off,
      )

  each_hook-Returns :
      (n : ℕ) (sub : Event → Bus P → Option (List P × Bus P))
      → Serves ids n sub
      → (ev : Event) (hs : List (Hook P)) (b : Bus P) → AllWithin ids ev.name hs
      → Inside ids b
      → free ids b.chain < suc n
      → Returns ids (each_hook clock sub ev hs b) b
  unfolding each_hook
  each_hook-Returns n sub serves ev [] b a v room = (([], b), refl, v, refl)
  each_hook-Returns n sub serves ev (x ∷ hs) b a v room =
      elim (Bool-cases (contains (x.owner, ev.name) b.chain)) [
        | inl on ↦
            let (r, e, inside, same) = each_hook-Returns n sub serves ev hs b a.1 v room in
            (r, rw (on, each_hook) e, inside, same)
        | inr off ↦
            let ((o, b'), e, inside, same) =
              call-Returns n sub serves (x.owner, ev.name) (x.fn ev) b a.0.0 off (a.0.1 ev) v
                room in
            let rest =
              each_hook-Returns n sub serves ev hs b' a.1 inside
                (subst (λ c. free ids c < suc n) (sym same) room) in
            ended o b' off e inside same rest
      ]
    where
      ended :
          (o : Outcome P) (b' : Bus P)
          → contains (x.owner, ev.name) b.chain ≡ false
          → call clock sub (x.owner, ev.name) (x.fn ev) b ≡ some (o, b')
          → Inside ids b'
          → b'.chain ≡ b.chain
          → Returns ids (each_hook clock sub ev hs b') b'
          → Returns ids (each_hook clock sub ev (x ∷ hs) b) b
      ended panicked b' off e inside same (r, e', inside', same') =
          (r, rw (off, each_hook) (rw (e, each_hook) e'), inside', same' ∙ same)
      ended (finished stop p) b' off e inside same rest = (
        (with_payload clock p [], b'),
        rw (off, each_hook) (rw (e, each_hook) refl),
        inside,
        same,
      )
      ended (finished nothing p) b' off e inside same (r, e', inside', same') = (
        (with_payload clock p r.0, r.1),
        rw (off, each_hook) (rw (e, each_hook) (rw e' refl)),
        inside',
        same' ∙ same,
      )
      ended (finished replied p) b' off e inside same (r, e', inside', same') = (
        (with_payload clock p r.0, r.1),
        rw (off, each_hook) (rw (e, each_hook) (rw e' refl)),
        inside',
        same' ∙ same,
      )

  or_else-AllWithin :
      (event : Text) (o : Option (List (Hook P)))
      → InHooks ids event o
      → AllWithin ids event (or_else o [])
  or_else-AllWithin event none a = tt
  or_else-AllWithin event (some hs) a = a

  submit_in-Serves : (n : ℕ) → Serves {P = P} ids n (submit_in clock n)
  unfolding submit_in
  submit_in-Serves zero ev b v room = absurd (omega (arith, room))
  submit_in-Serves (suc n) ev b v room =
      each_hook-Returns n (submit_in clock n) (submit_in-Serves n) ev
        (or_else (lookup ev.name b.events) []) b
        (or_else-AllWithin ev.name (lookup ev.name b.events) (v.hooks ev.name)) v room

  -- Where all hooks of a bus, and all that their handlers register, and the handlers of these in
  -- turn, stand under finitely many pairs of module and event, and the fuel is more than there are
  -- pairs: `Submit` of any event returns, however the handlers end and whatever they submit, with
  -- the call chain as it was and the hooks still under these pairs.
  pub submit_in-Returns :
      (fuel : ℕ) (ev : Event) (b : Bus P)
      → Inside ids b
      → length ids < fuel
      → Returns ids (submit_in clock fuel ev b) b
  submit_in-Returns fuel ev b v enough =
      submit_in-Serves fuel ev b v (omega (arith, enough, free_le ids b.chain))
