-- ===== src/Keeper/Tests.antt =====
-- internal/keeper/keeper.go: runs of the keeper, and the theorems at them.
use mathlib.Core.List.{flatten}
use botje.Prelude.{codes, true, false, List, [], ◌∷◌, ◌++◌, none, inl, arith, ◌≡◌, refl}
use botje.Keeper.{fresh, write, close, max_buffer, pump_read, at_deadline, wait_for, goodbye}
use botje.Keeper.Buffers.{last, buffer_all, buffer_all-last, send_all}
use botje.Keeper.Lines.{Waits, send_all-Waits}
use botje.Keeper.Reach.{
  Op, from_irc, from_core, irc_up, irc_down, core_up, core_down, run, IsSound, run-IsSound,
}

-- A core that comes late gets what was held for it, and its own lines go out.
abbrev ops : List Op
ops =
    irc_up 1
    ∷ from_irc true (codes ":irc NOTICE")
    ∷ core_up 2
    ∷ from_core (codes "NICK botje")
    ∷ core_down 2
    ∷ irc_down
    ∷ []

run-ops :
    (run ops fresh).1
    ≡ write 2 (codes ":irc NOTICE") ∷ write 1 (codes "NICK botje") ∷ close 2 ∷ close 1 ∷ []
unfolding run
run-ops = refl

second_silence : pump_read true true [] at_deadline ≡ (none, false)
unfolding pump_read
second_silence = refl

waits : wait_for 7 true ≡ 4
unfolding wait_for
waits = refl

goodbye-fresh : goodbye fresh ≡ (fresh, [])
unfolding goodbye
goodbye-fresh = refl

buffer_all-last_example :
    (buffer_all (codes "one" ∷ codes "two" ∷ []) fresh).buffer
    ≡ last max_buffer (fresh.buffer ++ flatten (codes "one" ∷ codes "two" ∷ []))
buffer_all-last_example =
    buffer_all-last (codes "one" ∷ codes "two" ∷ []) fresh (omega arith, (omega arith, tt))
      (omega arith)

fresh-Waits : Waits [] fresh
fresh-Waits = inl (omega arith, refl, refl)

send_all-Waits_example :
    Waits ([] ++ flatten (codes "NICK a\n" ∷ [])) (send_all (codes "NICK a\n" ∷ []) fresh)
send_all-Waits_example = send_all-Waits (codes "NICK a\n" ∷ []) [] fresh fresh-Waits

run-IsSound_example : IsSound (run ops fresh).0
run-IsSound_example = run-IsSound ops (tt, (omega arith, (tt, (omega arith, (tt, (tt, tt))))))
