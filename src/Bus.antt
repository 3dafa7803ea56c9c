-- ===== src/Bus.antt =====
-- internal/bus/bus.go: the event bus. A handler is a tree of what it does to the bus and of how it
-- ends; its answers may depend on what the bus gives back. `Publish` and `Run`, the queue in front of
-- `Submit`, are the caller's sequence of events. `OnPanic` is nil: nothing in the program sets it.
pub mod Chain
pub mod Within
pub mod Nesting
pub mod Hooks
mod Tests
use botje.Prelude.{
  ℕ, zero, suc, ◌+◌, ◌-◌, Text, codes, Map, Eq, Bool, true, false, not, ◌&&◌, ◌||◌, List, [], ◌∷◌,
  ◌++◌, Option, none, some, lookup, insert, map_values, keys, is_some, or_else, delete_if, contains,
  min, max, ltb, arith, ◌≡◌, ◌↔◌, refl, if◌then◌else◌, ◌==◌, text_eq, nat_eq, text_beq_iff,
  sort_texts,
}
use botje.Event.{Event}

-- `Handled`: None, Replied, Stop.
pub data Handled : Type 0 where
  nothing replied stop : Handled

pub data Script (P : Type 0) : Type 0 where
  finish : Handled → Option P → Script P
  panic : Script P
  register_event : Text → Script P → Script P
  register_hook : Text → Text → (Event → Script P) → (Bool → Script P) → Script P
  unregister_module : Text → Script P → Script P
  submit : Event → (List P → Script P) → Script P

-- `HookID`: module and event.
abbrev pub HookId : Type 0
HookId = Text × Text

abbrev pub id_beq : HookId → HookId → Bool
id_beq a b = a.0 == b.0 && a.1 == b.1

pub id_beq_iff : (a b : HookId) → (id_beq a b ≡ true) ↔ (a ≡ b)
id_beq_iff (m, e) (n, f) = ground (arith, text_beq_iff m n, text_beq_iff e f)

instance abbrev pub id_eq : Eq HookId
id_eq = record { beq = id_beq; beq_iff = id_beq_iff }

pub record CallStats : Type 0 where
  pub count : ℕ
  pub least : ℕ
  pub most : ℕ
  pub total : ℕ

pub record Hook (P : Type 0) : Type 0 where
  pub owner : Text
  pub fn : Event → Script P

-- `readings` counts the calls of `now`.
pub record Bus (P : Type 0) : Type 0 where
  pub events : Map Text (List (Hook P))
  pub chain : List HookId
  pub stats : Map HookId CallStats
  pub readings : ℕ

pub data Outcome (P : Type 0) : Type 0 where
  finished : Handled → Option P → Outcome P
  panicked : Outcome P

abbrev no_calls : CallStats
no_calls = record { count = 0; least = 0; most = 0; total = 0 }

count_call : ℕ → CallStats → CallStats
count_call ns cs = record {
  count = cs.count + 1;
  least = if cs.count == 0 || ltb ns cs.least then ns else cs.least;
  most = max cs.most ns;
  total = cs.total + ns;
}

module _ {P : Type 0} where
  -- `RegisterEvent`
  pub declare : Text → Bus P → Bus P
  declare name b =
      if is_some (lookup name b.events) then b else record b { events = insert name [] b.events }

  pub set_hook : Text → (Event → Script P) → List (Hook P) → List (Hook P)
  set_hook owner h [] = record { owner = owner; fn = h } ∷ []
  set_hook owner h (x ∷ xs) =
      let later = x ∷ set_hook owner h xs in
      if x.owner == owner then record x { fn = h } ∷ xs else later

  hook_in : Text → Text → (Event → Script P) → Option (List (Hook P)) → Bus P → Bool × Bus P
  hook_in owner event h none b = (false, b)
  hook_in owner event h (some hs) b =
      (true, record b { events = insert event (set_hook owner h hs) b.events })

  -- `RegisterHook`: false is its error.
  pub hook_on : Text → Text → (Event → Script P) → Bus P → Bool × Bus P
  unfolding hook_in set_hook
  hook_on owner event h b = hook_in owner event h (lookup event b.events) b

  -- `UnregisterModule`
  pub unhook : Text → Bus P → Bus P
  unhook owner b = record b {
    events = map_values (delete_if (λ (x : Hook P). x.owner == owner)) b.events;
  }

  owners : List (Hook P) → List Text → List Text
  owners [] out = out
  owners (h ∷ hs) out = owners hs (if contains h.owner out then out else out ++ h.owner ∷ [])

  all_owners : Map Text (List (Hook P)) → List Text → List Text
  all_owners [] out = out
  all_owners ((e, hs) ∷ m) out = all_owners m (owners hs out)

  -- `Modules`
  pub modules : Bus P → List Text
  unfolding owners all_owners
  modules b = sort_texts (all_owners b.events [])

  -- `record`
  pub note_call : HookId → ℕ → Bus P → Bus P
  unfolding count_call
  note_call id ns b = record b {
    stats = insert id (count_call ns (or_else (lookup id b.stats) no_calls)) b.stats;
  }

  -- A handler runs against the bus; `sub` is what its own submissions do.
  pub run :
      (Event → Bus P → Option (List P × Bus P)) → Script P → Bus P → Option (Outcome P × Bus P)
  run sub (finish code payload) b = some (finished code payload, b)
  run sub panic b = some (panicked, b)
  run sub (register_event name k) b = run sub k (declare name b)
  run sub (register_hook owner event h k) b =
      let (done, b') = hook_on owner event h b in run sub (k done) b'
  run sub (unregister_module owner k) b = run sub k (unhook owner b)
  run sub (submit ev k) b = elim (sub ev b) [
    | none ↦ none
    | some (payloads, b') ↦ run sub (k payloads) b'
  ]

module _ {P : Type 0} (clock : ℕ → ℕ) where
  -- The deferred end of `call`, from the time it began at.
  pub leave : HookId → ℕ → Outcome P → Bus P → Bus P
  leave id start o b =
      let off : Bus P = record b {
        chain = delete_if (λ i. i == id) b.chain;
        readings = suc b.readings;
      } in
      let noted = note_call id (clock b.readings - start) off in
      elim o [ finished code payload ↦ noted | panicked ↦ unhook id.0 noted ]

  -- The beginning of `call`.
  pub enter : HookId → Bus P → Bus P
  enter id b = record b { chain = id ∷ b.chain; readings = suc b.readings }

  -- `call`
  pub call :
      (Event → Bus P → Option (List P × Bus P))
      → HookId
      → Script P
      → Bus P
      → Option (Outcome P × Bus P)
  unfolding enter leave
  call sub id script b = elim (run sub script (enter id b)) [
    | none ↦ none
    | some (o, b') ↦ some (o, leave id (clock b.readings) o b')
  ]

  abbrev pub with_payload : Option P → List P → List P
  with_payload none ps = ps
  with_payload (some p) ps = p ∷ ps

  abbrev collecting : Option P → Option (List P × Bus P) → Option (List P × Bus P)
  collecting p none = none
  collecting p (some (ps, b)) = some (with_payload p ps, b)

  -- The loop of `Submit` over the copy of the hooks.
  pub each_hook :
      (Event → Bus P → Option (List P × Bus P))
      → Event
      → List (Hook P)
      → Bus P
      → Option (List P × Bus P)
  each_hook sub ev [] b = some ([], b)
  each_hook sub ev (h ∷ hs) b =
      let id : HookId = (h.owner, ev.name) in
      let skipped = each_hook sub ev hs b in
      elim (contains id b.chain) [
        | true ↦ skipped
        | false ↦ elim (call sub id (h.fn ev) b) [
          | none ↦ none
          | some (panicked, b') ↦ each_hook sub ev hs b'
          | some (finished stop payload, b') ↦ some (with_payload payload [], b')
          | some (finished nothing payload, b') ↦ collecting payload (each_hook sub ev hs b')
          | some (finished replied payload, b') ↦ collecting payload (each_hook sub ev hs b')
        ]
      ]

  -- `Submit`; the fuel bounds how deep submissions nest, and none says that it ran out.
  pub submit_in : ℕ → Event → Bus P → Option (List P × Bus P)
  submit_in zero ev b = none
  submit_in (suc fuel) ev b = each_hook (submit_in fuel) ev (or_else (lookup ev.name b.events) []) b
