-- ===== src/Bus/Chain.antt =====
-- internal/bus/bus.go: the call chain, over panics and nested submissions.
use botje.Prelude.{
  ℕ, zero, suc, Text, false, List, [], ◌∷◌, Option, some, lookup, or_else, text_eq, delete_if,
  contains, arith, ◌≡◌, refl, ◌∙◌, ap, Bool-cases, Option-cases, inl, inr, ◌==◌, ==_refl,
}
use botje.Event.{Event}
use botje.Bus.{
  Script, finish, panic, register_event, register_hook, unregister_module, submit, HookId, id_eq,
  Hook, Bus, Outcome, finished, panicked, nothing, replied, stop, declare, hook_on, unhook,
  note_call, run, enter, leave, call, each_hook, submit_in,
}

absent :
    (id : HookId) (ids : List HookId) → contains id ids ≡ false → delete_if (λ i. i == id) ids ≡ ids
unfolding contains
absent id [] h = refl
absent id (i ∷ ids) h = ground (arith, absent id ids)

pub off_again :
    (id : HookId) (ids : List HookId)
    → contains id ids ≡ false
    → delete_if (λ i. i == id) (id ∷ ids) ≡ ids
off_again id ids h = rw (==_refl id) (absent id ids h)

module _ {P : Type 0} where
  pub declare-chain : (name : Text) (b : Bus P) → (declare name b).chain ≡ b.chain
  unfolding declare
  declare-chain name b = ground arith

  pub hook_on-chain :
      (o e : Text) (h : Event → Script P) (b : Bus P) → (hook_on o e h b).1.chain ≡ b.chain
  unfolding hook_on
  hook_on-chain o e h b = ground arith

  -- A submission that leaves the chain alone whenever it returns.
  abbrev pub Balanced : (Event → Bus P → Option (List P × Bus P)) → Type 0
  Balanced sub =
      (ev : Event) (b : Bus P) (r : List P × Bus P) → sub ev b ≡ some r → r.1.chain ≡ b.chain

  run-chain :
      (sub : Event → Bus P → Option (List P × Bus P))
      → Balanced sub
      → (s : Script P) (b : Bus P) (r : Outcome P × Bus P) → run sub s b ≡ some r
      → r.1.chain ≡ b.chain
  unfolding run
  run-chain sub bal (finish c p) b r h = ground arith
  run-chain sub bal panic b r h = ground arith
  run-chain sub bal (register_event name k) b r h =
      run-chain sub bal k (declare name b) r h ∙ declare-chain name b
  run-chain sub bal (register_hook o e f k) b r h =
      run-chain sub bal (k (hook_on o e f b).0) (hook_on o e f b).1 r h ∙ hook_on-chain o e f b
  run-chain sub bal (unregister_module o k) b r h =
      run-chain sub bal k (unhook o b) r h ∙ (unfold unhook in refl)
  run-chain sub bal (submit ev k) b r h = elim (Option-cases (sub ev b)) [
    | inl e ↦ absurd (ground (arith, e, h))
    | inr (q, e) ↦ run-chain sub bal (k q.0) q.1 r (ground (arith, e, h)) ∙ bal ev b q e
  ]

module _ {P : Type 0} (clock : ℕ → ℕ) where
  pub leave-chain :
      (id : HookId) (start : ℕ) (o : Outcome P) (b : Bus P)
      → (leave clock id start o b).chain ≡ delete_if (λ i. i == id) b.chain
  unfolding leave note_call unhook
  leave-chain id start (finished c p) b = refl
  leave-chain id start panicked b = refl

  pub call-chain :
      (sub : Event → Bus P → Option (List P × Bus P))
      → Balanced sub
      → (id : HookId) (s : Script P) (b : Bus P) (r : Outcome P × Bus P)
      → contains id b.chain ≡ false
      → call clock sub id s b ≡ some r
      → r.1.chain ≡ b.chain
  unfolding call enter
  call-chain sub bal id s b r off h = elim (Option-cases (run sub s (enter clock id b))) [
    | inl e ↦ absurd (ground (arith, e, h))
    | inr (q, e) ↦
        let after : r.1 ≡ leave clock id (clock b.readings) q.0 q.1 = ground (arith, e, h) in
        ap (λ (x : Bus P). x.chain) after
        ∙ leave-chain id (clock b.readings) q.0 q.1
        ∙ ap (delete_if (λ i. i == id)) (run-chain sub bal s (enter clock id b) q e)
        ∙ off_again id b.chain off
  ]

  each_hook-chain :
      (sub : Event → Bus P → Option (List P × Bus P))
      → Balanced sub
      → (ev : Event) (hs : List (Hook P)) (b : Bus P) (r : List P × Bus P)
      → each_hook clock sub ev hs b ≡ some r
      → r.1.chain ≡ b.chain
  unfolding each_hook
  each_hook-chain sub bal ev [] b r h = ground arith
  each_hook-chain sub bal ev (x ∷ hs) b r h =
      elim (Bool-cases (contains (x.owner, ev.name) b.chain)) [
        | inl on ↦ each_hook-chain sub bal ev hs b r (ground (arith, on, h))
        | inr off ↦ elim (Option-cases (call clock sub (x.owner, ev.name) (x.fn ev) b)) [
          | inl e ↦ absurd (ground (arith, off, e, h))
          | inr ((o, b'), e) ↦ ended o b' (each_hook-chain sub bal ev hs b') off e h
        ]
      ]
    where
      ended :
          (o : Outcome P) (b' : Bus P)
          → ((r : List P × Bus P) → each_hook clock sub ev hs b' ≡ some r → r.1.chain ≡ b'.chain)
          → contains (x.owner, ev.name) b.chain ≡ false
          → call clock sub (x.owner, ev.name) (x.fn ev) b ≡ some (o, b')
          → each_hook clock sub ev (x ∷ hs) b ≡ some r
          → r.1.chain ≡ b.chain
      ended panicked b' rest off e h =
          rest r (ground (arith, off, e, h))
          ∙ call-chain sub bal (x.owner, ev.name) (x.fn ev) b (panicked, b') off e
      ended (finished stop p) b' rest off e h =
          let same : r.1 ≡ b' = ground (arith, off, e, h) in
          ap (λ (y : Bus P). y.chain) same
          ∙ call-chain sub bal (x.owner, ev.name) (x.fn ev) b (finished stop p, b') off e
      ended (finished nothing p) b' rest off e h =
          elim (Option-cases (each_hook clock sub ev hs b')) [
            | inl z ↦ absurd (ground (arith, off, e, z, h))
            | inr (q, z) ↦
                let same : r.1 ≡ q.1 = ground (arith, off, e, z, h) in
                ap (λ (y : Bus P). y.chain) same
                ∙ rest q z
                ∙ call-chain sub bal (x.owner, ev.name) (x.fn ev) b (finished nothing p, b') off e
          ]
      ended (finished replied p) b' rest off e h =
          elim (Option-cases (each_hook clock sub ev hs b')) [
            | inl z ↦ absurd (ground (arith, off, e, z, h))
            | inr (q, z) ↦
                let same : r.1 ≡ q.1 = ground (arith, off, e, z, h) in
                ap (λ (y : Bus P). y.chain) same
                ∙ rest q z
                ∙ call-chain sub bal (x.owner, ev.name) (x.fn ev) b (finished replied p, b') off e
          ]

  -- A submission that returns leaves the call chain as it found it, however its handlers end and
  -- whatever they submit themselves.
  pub submit_in-chain :
      (fuel : ℕ) (ev : Event) (b : Bus P) (r : List P × Bus P)
      → submit_in clock fuel ev b ≡ some r
      → r.1.chain ≡ b.chain
  unfolding submit_in
  submit_in-chain zero ev b r h = absurd (cc)
  submit_in-chain (suc fuel) ev b r h =
      each_hook-chain (submit_in clock fuel) (submit_in-chain fuel) ev
        (or_else (lookup ev.name b.events) []) b r h
