-- ===== src/Session/Backoff.antt =====
-- internal/irc/session.go: `Backoff`, the reconnect delays. Times and delays are nanoseconds.
use botje.Prelude.{
  ℕ, ◌+◌, ◌*◌, ◌≤◌, Bool, false, List, [], ◌∷◌, ◌≡◌, arith, Option, none, some, if◌then◌else◌, ltb,
}

abbrev pub seconds : ℕ → ℕ
seconds n = n * 1000000000

-- `when` is none for the zero time.
pub record Backoff : Type 0 where
  pub delay : ℕ
  pub when : Option ℕ

abbrev pub fresh : Backoff
fresh = record { delay = 0; when = none }

-- The last attempt was long ago.
pub rested : Option ℕ → ℕ → Bool
rested none now = false
rested (some t) now = ltb (t + seconds 300) now

-- The loop over the four delays.
climb : List ℕ → ℕ → ℕ → ℕ × Backoff
climb [] delay now = (seconds 300, record { delay = delay; when = some (now + seconds 300) })
climb (d ∷ ds) delay now =
    let later = climb ds delay now in
    if ltb delay d then (d, record { delay = d; when = some (now + d) }) else later

abbrev ladder : List ℕ
ladder = seconds 3 ∷ seconds 60 ∷ seconds 180 ∷ seconds 300 ∷ []

-- `Next`
pub next : ℕ → Backoff → ℕ × Backoff
unfolding rested climb
next now b = climb ladder (if rested b.when now then 0 else b.delay) now

-- The rung above, and the last one above itself.
abbrev pub above : ℕ → ℕ
above delay =
    if ltb delay (seconds 3)
    then seconds 3
    else if ltb delay (seconds 60)
    then seconds 60
    else if ltb delay (seconds 180)
    then seconds 180
    else seconds 300

-- Each quick failure climbs one rung, and the last rung stays; after more than 300 s of peace the
-- ladder starts again at 3 s. The next attempt is due when the delay that is returned has passed.
pub next-above :
    (now : ℕ) (b : Backoff)
    → b.delay ≤ seconds 300
    → ((next now b).0 ≡ above (if rested b.when now then 0 else b.delay))
      × ((next now b).1.when ≡ some (now + (next now b).0))
      × ((next now b).1.delay ≡ (next now b).0)
unfolding next
next-above now b h = (ground arith, ground arith, ground arith)
