-- ===== src/Keeper/Reach.antt =====
-- internal/keeper/keeper.go: the operations in any order, from a fresh keeper.
use botje.Prelude.{
  ℕ, ◌+◌, ◌-◌, ◌≤◌, Text, Bool, true, false, List, [], ◌∷◌, ◌++◌, Option, none, some, length,
  length-append, length-drop, length-take, take, drop, is_some, All, if◌then◌else◌, arith, ◌≡◌,
  refl, Bool-cases, Option-cases, inl, inr, nat_eq,
}
use botje.Keeper.Buffers.{buffer_in-drop}
use botje.Keeper.{
  Keeper, fresh, Act, max_buffer, max_out_buffer, read_size, buffer_in, buffer_out, to_last_newline,
  to_core, to_irc, set_irc, attach_core, detach_core, is_core, drop_session, close_conns, goodbye,
}

-- One locked section of one of the goroutines. A chunk comes from a read.
pub data Op : Type 0 where
  from_irc : Bool → Text → Op
  from_core : Text → Op
  irc_up : ℕ → Op
  irc_down : Op
  core_up : ℕ → Op
  core_down : ℕ → Op
  session_lost : Op
  stopping : Op
  farewell : Op

unfoldable pub apply : Op → Keeper → Keeper × List Act
unfolding to_core to_irc set_irc attach_core detach_core drop_session close_conns goodbye
apply (from_irc ok b) k = to_core ok b k
apply (from_core b) k = to_irc b k
apply (irc_up conn) k = set_irc (some conn) k
apply irc_down k = set_irc none k
apply (core_up conn) k = attach_core conn k
apply (core_down conn) k = detach_core conn k
apply session_lost k = drop_session k
apply stopping k = close_conns k
apply farewell k = goodbye k

unfoldable pub run : List Op → Keeper → Keeper × List Act
unfolding apply
run [] k = (k, [])
run (op ∷ ops) k =
    let (k', acts) = apply op k in let (k'', later) = run ops k' in (k'', acts ++ later)

-- A read gives no more than its buffer holds.
abbrev pub IsRead : Op → Type 0
IsRead (from_irc ok b) = length b ≤ read_size
IsRead (from_core b) = length b ≤ read_size
IsRead _ = Unit

pub record IsSound (k : Keeper) : Type 0 where
  pub bounded : length k.buffer ≤ max_buffer
  pub out_bounded : length k.out_buf ≤ max_out_buffer
  pub passed_on : is_some k.core ≡ true → k.buffer ≡ []
  pub out_passed_on : is_some k.irc ≡ true → (k.out_buf ≡ []) × (k.out_dropped ≡ false)

length-to_last_newline : (s : Text) → length (to_last_newline s) ≤ length s
unfolding to_last_newline
length-to_last_newline [] = omega arith
length-to_last_newline (c ∷ cs) = ground (arith, length-to_last_newline cs)

buffer_in-bounded :
    (b : Text) (k : Keeper)
    → length k.buffer ≤ max_buffer
    → length b ≤ read_size
    → length (buffer_in b k).buffer ≤ max_buffer
buffer_in-bounded b k h r = rw (buffer_in-drop b k) (
    omega (
      arith,
      length-append (drop (length k.buffer + length b - max_buffer) k.buffer) b,
      length-drop (length k.buffer + length b - max_buffer) k.buffer,
    ))

buffer_out-bounded :
    (b : Text) (k : Keeper)
    → length k.out_buf ≤ max_out_buffer
    → length (buffer_out b k).out_buf ≤ max_out_buffer
unfolding buffer_out
buffer_out-bounded b k h = ground (
  arith,
  length-to_last_newline (k.out_buf ++ take (max_out_buffer - length k.out_buf) b),
  length-to_last_newline k.out_buf,
  length-append k.out_buf (take (max_out_buffer - length k.out_buf) b),
  length-take (max_out_buffer - length k.out_buf) b,
  length-append k.out_buf b,
)

buffer_in-IsSound :
    (b : Text) (k : Keeper)
    → length b ≤ read_size
    → IsSound k
    → k.core ≡ none
    → IsSound (buffer_in b k)
unfolding buffer_in
buffer_in-IsSound b k r s e = record {
  bounded = buffer_in-bounded b k s.bounded r;
  out_bounded = s.out_bounded;
  passed_on = λ h. absurd (ground arith);
  out_passed_on = s.out_passed_on;
}

buffer_out-same :
    (b : Text) (k : Keeper)
    → ((buffer_out b k).buffer ≡ k.buffer)
      × ((buffer_out b k).core ≡ k.core)
      × ((buffer_out b k).irc ≡ k.irc)
unfolding buffer_out
buffer_out-same b k = (ground arith, ground arith, ground arith)

buffer_out-IsSound : (b : Text) (k : Keeper) → IsSound k → k.irc ≡ none → IsSound (buffer_out b k)
buffer_out-IsSound b k s e = record {
  bounded = rw (buffer_out-same b k).0 s.bounded;
  out_bounded = buffer_out-bounded b k s.out_bounded;
  passed_on = rw (buffer_out-same b k).0 (rw (buffer_out-same b k).1 s.passed_on);
  out_passed_on = λ h. absurd (ground (arith, (buffer_out-same b k).2));
}

to_core-IsSound :
    (ok : Bool) (b : Text) (k : Keeper)
    → length b ≤ read_size
    → IsSound k
    → IsSound (to_core ok b k).0
unfolding to_core
to_core-IsSound ok b k r s = elim (Option-cases k.core) [
  | inl e ↦ rw (e, to_core) (buffer_in-IsSound b k r s e)
  | inr (conn, e) ↦ rw (e, to_core) (with_core ok _)
]
  where
    cut : IsSound (record k { core = none })
    cut = record {
      bounded = s.bounded;
      out_bounded = s.out_bounded;
      passed_on = λ h. absurd (cc);
      out_passed_on = s.out_passed_on;
    }

    with_core :
        (o : Bool) (acts : List Act)
        → IsSound (
            let r : Keeper × List Act =
              if o then (k, acts) else (buffer_in b (record k { core = none }), acts) in
            r.0)
    with_core true acts = s
    with_core false acts = buffer_in-IsSound b (record k { core = none }) r cut refl

to_irc-IsSound : (b : Text) (k : Keeper) → IsSound k → IsSound (to_irc b k).0
unfolding to_irc
to_irc-IsSound b k s = elim (Option-cases k.irc) [
  | inl e ↦ rw (e, to_irc) (buffer_out-IsSound b k s e)
  | inr (conn, e) ↦ rw (e, to_irc) s
]

set_irc-IsSound : (conn : Option ℕ) (k : Keeper) → IsSound k → IsSound (set_irc conn k).0
unfolding set_irc
set_irc-IsSound none k s = record {
  bounded = s.bounded;
  out_bounded = omega arith;
  passed_on = s.passed_on;
  out_passed_on = λ h. (refl, refl);
}
set_irc-IsSound (some conn) k s = by_closed k.closed _ _
  where
    by_closed :
        (c : Bool) (shut up : List Act)
        → IsSound (
            let r : Keeper × List Act =
              if c
              then (k, shut)
              else (record k { irc = some conn; out_buf = []; out_dropped = false }, up) in
            r.0)
    by_closed true shut up = s
    by_closed false shut up = record {
      bounded = s.bounded;
      out_bounded = omega arith;
      passed_on = s.passed_on;
      out_passed_on = λ h. (refl, refl);
    }

apply-IsSound : (op : Op) (k : Keeper) → IsRead op → IsSound k → IsSound (apply op k).0
unfolding apply to_core to_irc set_irc attach_core detach_core drop_session close_conns goodbye
apply-IsSound (from_irc ok b) k r s = to_core-IsSound ok b k r s
apply-IsSound (from_core b) k r s = to_irc-IsSound b k s
apply-IsSound (irc_up conn) k r s = set_irc-IsSound (some conn) k s
apply-IsSound irc_down k r s = set_irc-IsSound none k s
apply-IsSound (core_up conn) k r s = record {
  bounded = omega arith;
  out_bounded = s.out_bounded;
  passed_on = λ h. refl;
  out_passed_on = s.out_passed_on;
}
apply-IsSound (core_down conn) k r s = elim (Bool-cases (is_core conn k.core)) [
  | inl e ↦
      rw (e, detach_core)
        (record {
          bounded = s.bounded;
          out_bounded = omega arith;
          passed_on = λ h. absurd (cc);
          out_passed_on = λ h. (refl, refl);
        })
  | inr e ↦ rw (e, detach_core) s
]
apply-IsSound session_lost k r s = record {
  bounded = omega arith;
  out_bounded = s.out_bounded;
  passed_on = λ h. refl;
  out_passed_on = s.out_passed_on;
}
apply-IsSound stopping k r s = record {
  bounded = s.bounded;
  out_bounded = s.out_bounded;
  passed_on = s.passed_on;
  out_passed_on = s.out_passed_on;
}
apply-IsSound farewell k r s = elim (Option-cases k.irc) [
  | inl e ↦ rw (e, goodbye) s
  | inr (conn, e) ↦ rw (e, goodbye) s
]

run-IsSound_from : (ops : List Op) (k : Keeper) → All IsRead ops → IsSound k → IsSound (run ops k).0
unfolding run
run-IsSound_from [] k r s = s
run-IsSound_from (op ∷ ops) k r s =
    run-IsSound_from ops (apply op k).0 r.1 (apply-IsSound op k r.0 s)

-- In whatever order the goroutines take the lock, with reads of at most 32 KiB, from a fresh keeper
-- on: no more than 4 MiB wait for the core and no more than 16 KiB for IRC, nothing waits for a core that is attached, and nothing
-- waits or is being dropped while IRC is connected.
pub run-IsSound : (ops : List Op) → All IsRead ops → IsSound (run ops fresh).0
run-IsSound ops r = run-IsSound_from ops fresh r start
  where
    start : IsSound fresh
    start = record {
      bounded = omega arith;
      out_bounded = omega arith;
      passed_on = λ h. refl;
      out_passed_on = λ h. (refl, refl);
    }
