-- ===== src/Bus/Tests.antt =====
-- internal/bus/bus.go: a bus with a module that submits the event it handles, and the theorems at it.
use botje.Prelude.{
  ℕ, Text, codes, false, Bool-cases, inl, inr, subst, text_beq_iff, ◌==◌, text_eq, text_beq, List,
  [], ◌∷◌, some, lookup, insert, on_some, delete_if, contains, distinct, sort_texts, sort_by,
  insert_by, text_ltb, ◌≡◌, refl, arith,
}
use botje.Event.{Event}
use botje.Bus.{
  Script, finish, submit, HookId, id_eq, Hook, Bus, replied, nothing, unhook, modules, note_call,
  run, enter, leave, call, each_hook, submit_in,
}
use botje.Bus.Within.{AllWithin, Inside}
use botje.Bus.Nesting.{Returns, submit_in-Returns}
use botje.Bus.Hooks.{OneEach, lookup-unhook}

abbrev named : Text → Event
named name = record {
  name = name;
  bot_nick = [];
  server = [];
  sender = record { nick = []; user = []; host = []; user_id = [] };
  sender_me = false;
  channel = [];
  target_me = false;
  query = false;
  msg = [];
  raw = record { prefix = []; cmd = []; params = [] };
  target = [];
  reason = [];
  mode = [];
  topic = [];
  args = [];
  net_split = false;
}

-- `a` answers an event by submitting it again, which the call chain refuses for `a` itself.
abbrev again : Event → Script ℕ
again ev = submit ev (λ payloads. finish replied (some 1))

abbrev last_word : Event → Script ℕ
last_word ev = finish nothing (some 2)

abbrev loud : Bus ℕ
loud = record {
  events =
      (
        codes "E",
        record { owner = codes "a"; fn = again }
            ∷ record { owner = codes "b"; fn = last_word }
            ∷ [],
      )
      ∷ [];
  chain = [];
  stats = [];
  readings = 0;
}

abbrev clock : ℕ → ℕ
clock n = n

abbrev loud_after : List ℕ × Bus ℕ
loud_after = (
  1 ∷ 2 ∷ [],
  record loud {
    stats =
        ((codes "b", codes "E"), record { count = 2; least = 1; most = 1; total = 2 })
        ∷ ((codes "a", codes "E"), record { count = 1; least = 3; most = 3; total = 3 })
        ∷ [];
    readings = 6;
  },
)

modules-loud : modules loud ≡ codes "a" ∷ codes "b" ∷ []
unfolding modules contains text_beq sort_texts sort_by insert_by text_ltb
modules-loud = refl

loud_submitted : submit_in clock 2 (named (codes "E")) loud ≡ some loud_after
unfolding submit_in each_hook call run enter leave note_call contains lookup insert text_beq
loud_submitted = refl

abbrev pairs : List HookId
pairs = (codes "a", codes "E") ∷ (codes "b", codes "E") ∷ []

abbrev both : List (Hook ℕ)
both = record { owner = codes "a"; fn = again } ∷ record { owner = codes "b"; fn = last_word } ∷ []

both-AllWithin : AllWithin pairs (codes "E") both
unfolding contains text_beq
both-AllWithin = ((refl, λ ev payloads. tt), ((refl, λ ev. tt), tt))

loud-Inside : Inside pairs loud
unfolding lookup
loud-Inside = record {
  hooks = λ event. elim (Bool-cases (codes "E" == event)) [
    | inl same ↦ rw same (
        subst (λ x. AllWithin pairs x both) ((text_beq_iff (codes "E") event).0 same)
          both-AllWithin)
    | inr other ↦ rw other tt
  ];
}

submit_in-Returns_example : Returns pairs (submit_in clock 3 (named (codes "E")) loud) loud
submit_in-Returns_example =
    submit_in-Returns clock pairs 3 (named (codes "E")) loud loud-Inside (omega arith)

loud-OneEach : OneEach loud
unfolding lookup distinct contains text_beq
loud-OneEach event hs h = ground (arith, h)

lookup-unhook_example :
    lookup (codes "E") (unhook (codes "a") loud).events
    ≡ on_some (delete_if (λ (x : Hook ℕ). x.owner == codes "a")) (lookup (codes "E") loud.events)
lookup-unhook_example = lookup-unhook (codes "a") (codes "E") loud
