-- ===== src/Flood/Serve.antt =====
-- internal/irc/flood/flood.go: what one call of `Next` does.
use botje.Prelude.{
  ℕ, suc, ◌+◌, ◌%◌, ◌≤◌, ◌<◌, Text, text_eq, text_beq_iff, ==_refl, true, false, ◌≡◌, refl, ◌∙◌, ap,
  none, some, List, [], ◌∷◌, ◌++◌, Map, lookup, insert, remove, keys, or_else, Unique,
  remove_absent, distinct-cons, tail, length, nat_eq, contains-nil, arith, inl, inr, Bool-cases,
  ◌==◌, if◌then◌else◌,
}
use native.Mathlib.Decide.{dec_lt}
use botje.Flood.{
  Queue, Outcome, empty, limited, sent, second, max_wait, pop_round_robin, delay, delay_in, wait_of,
  record_cost, next, len, sum_lengths, is_empty, take_line, send_line,
}
use botje.Flood.Valid.{IsValid, Popped, popped, Popped-IsValid, same-IsValid, is_nil}

sum_lengths-insert :
    (b : Text) (ls : List Text) (m : Map Text (List Text))
    → sum_lengths (insert b ls m) + length (or_else (lookup b m) []) ≡ sum_lengths m + length ls
unfolding sum_lengths insert lookup
sum_lengths-insert b ls [] = omega arith
sum_lengths-insert b ls ((c, ks) ∷ m) = ground (arith, sum_lengths-insert b ls m)

sum_lengths-remove :
    (b : Text) (m : Map Text (List Text))
    → Unique m
    → sum_lengths (remove b m) + length (or_else (lookup b m) []) ≡ sum_lengths m
unfolding sum_lengths remove lookup keys
sum_lengths-remove b [] u = refl
sum_lengths-remove b ((c, ks) ∷ m) u =
    let split = distinct-cons c (keys m) u in
    ground (arith, split.0, sum_lengths-remove b m split.1, remove_absent b m, text_beq_iff c b)

lookup_head :
    (c : Text) (ks : List Text) (m : Map Text (List Text)) → lookup c ((c, ks) ∷ m) ≡ some ks
unfolding lookup
lookup_head c ks m = rw (==_refl c)

no_order : (q : Queue) → IsValid q → q.order ≡ [] → sum_lengths q.buckets ≡ 0
unfolding sum_lengths
no_order q v order = by_buckets q.buckets refl
  where
    by_buckets : (m : Map Text (List Text)) → q.buckets ≡ m → sum_lengths m ≡ 0
    by_buckets [] e = refl
    by_buckets ((c, ks) ∷ m) e =
        absurd (ground (arith, v.covers c, contains-nil c, lookup_head c ks m))

len-pop :
    (q : Queue) (b : Text) (rest : List Text)
    → IsValid q
    → (p : Popped q b rest) → len q ≡ suc (len p.after)
unfolding len
len-pop q b rest v p = ground (
  arith,
  p.was,
  p.bucketed,
  p.high,
  sum_lengths-remove b q.buckets v.unique,
  sum_lengths-insert b p.lines q.buckets,
)

-- A delay is none, or whole seconds up to the cap, and then nothing changes.
pub record Delayed (window : List ℕ) (wait : ℕ) (left : List ℕ) : Type 0 where
  pub capped : wait ≤ max_wait
  pub whole : wait % second ≡ 0
  pub waits : 0 < wait → (second ≤ wait) × (left ≡ window)
  pub sends : wait ≡ 0 → left ≡ tail window

pub delay_in-Delayed :
    (window : List ℕ) (now : ℕ) → Delayed window (delay_in window now).0 (delay_in window now).1
unfolding delay_in wait_of
delay_in-Delayed [] now = record {
  capped = omega arith;
  whole = refl;
  waits = λ h. elim h [ ];
  sends = λ h. refl;
}
delay_in-Delayed (t ∷ ts) now = record {
  capped = ground arith;
  whole = ground arith;
  waits = ground arith;
  sends = ground arith;
}

pub data Served (q : Queue) : Outcome → Queue → Type 0 where
  idle : len q ≡ 0 → Served q empty q
  waiting :
      (wait : ℕ) → second ≤ wait → wait ≤ max_wait → wait % second ≡ 0 → Served q (limited wait) q
  high_line :
      (line : Text) (after : Queue)
      → q.high ≡ line ∷ after.high
      → after.order ≡ q.order
      → after.buckets ≡ q.buckets
      → Served q (sent line) after
  bucket_line :
      (b line : Text) (rest lines : List Text) (after : Queue)
      → q.high ≡ []
      → after.high ≡ []
      → q.order ≡ b ∷ rest
      → after.order ≡ (if is_nil lines then rest else rest ++ b ∷ [])
      → lookup b q.buckets ≡ some (line ∷ lines)
      → ((c : Text)
          → lookup c after.buckets
            ≡ (if b == c then (if is_nil lines then none else some lines) else lookup c q.buckets))
      → len q ≡ suc (len after)
      → Served q (sent line) after

empty_len : (q : Queue) → IsValid q → is_empty q ≡ true → len q ≡ 0
unfolding is_empty len
empty_len q v e = ground (arith, no_order q v)

-- `Next` always returns, with one of its three results.
abbrev pub Returns : (ℕ → ℕ) → Queue → Type 0
Returns clock q =
    (o : Outcome) × (after : Queue) × (next clock q ≡ some (o, after))
    × Served q o after
    × IsValid after

take_high :
    (q : Queue) (line : Text) (rest : List Text)
    → q.high ≡ line ∷ rest
    → take_line q ≡ some (line, record q { high = rest })
unfolding take_line
take_high q line rest high = rw (high, take_line)

take_bucket : (q : Queue) → q.high ≡ [] → take_line q ≡ pop_round_robin q
unfolding take_line
take_bucket q high = ground arith

module _ (clock : ℕ → ℕ) (q : Queue) (v : IsValid q) where
  wait : ℕ
  wait = (delay_in q.window (clock 0)).0

  left : Queue
  left = record q { window = (delay_in q.window (clock 0)).1 }

  next_waits : is_empty q ≡ false → 0 < wait → next clock q ≡ some (limited wait, q)
  unfolding next delay wait left
  next_waits busy positive = ground (arith, (delay_in-Delayed q.window (clock 0)).waits positive)

  next_sends :
      is_empty q ≡ false → wait ≡ 0 → next clock q ≡ send_line (λ i. clock (suc i)) (take_line left)
  unfolding next delay wait left
  next_sends busy none_left = ground arith

  send_high :
      (line : Text) (rest : List Text)
      → is_empty q ≡ false
      → wait ≡ 0
      → q.high ≡ line ∷ rest
      → Returns clock q
  unfolding left send_line record_cost
  send_high line rest busy now high =
      let after = record_cost line (λ i. clock (suc i)) (record left { high = rest }) in
      (
        sent line,
        after,
        next_sends busy now ∙ ap (send_line (λ i. clock (suc i))) (take_high left line rest high),
        high_line line after high refl refl,
        same-IsValid after v refl refl,
      )

  send_bucket :
      (b : Text) (rest : List Text)
      → is_empty q ≡ false
      → wait ≡ 0
      → q.high ≡ []
      → q.order ≡ b ∷ rest
      → Returns clock q
  unfolding left send_line record_cost
  send_bucket b rest busy now high order =
      let v' : IsValid left = same-IsValid left v refl refl in
      let p : Popped left b rest = popped left b rest v' order in
      let after = record_cost p.line (λ i. clock (suc i)) p.after in
      (
        sent p.line,
        after,
        next_sends busy now
            ∙ ap (send_line (λ i. clock (suc i))) (take_bucket left high ∙ p.result),
        bucket_line b p.line rest p.lines after high (p.high ∙ high) order p.turned p.was p.kept
            (unfold len in len-pop left b rest v' p),
        same-IsValid after (Popped-IsValid left b rest v' order p) refl refl,
      )

  nothing_left : is_empty q ≡ false → q.high ≡ [] → q.order ≡ [] → ⊥
  unfolding is_empty
  nothing_left busy high order = ground arith

  busy_sends : is_empty q ≡ false → wait ≡ 0 → Returns clock q
  busy_sends busy now = by_high q.high refl
    where
      by_order : (o : List Text) → q.high ≡ [] → q.order ≡ o → Returns clock q
      by_order [] high order = absurd (nothing_left busy high order)
      by_order (b ∷ rest) high order = send_bucket b rest busy now high order

      by_high : (h : List Text) → q.high ≡ h → Returns clock q
      by_high [] high = by_order q.order high refl
      by_high (line ∷ rest) high = send_high line rest busy now high

  -- From a valid queue `Next` never panics, does exactly one of the three things that it promises
  -- (empty; a wait of one to three whole seconds; the first priority line, or else the oldest line
  -- of the bucket in front), and leaves the queue valid.
  pub next-Returns : Returns clock q
  unfolding next wait
  next-Returns = elim (Bool-cases (is_empty q)) [
    | inl idle_now ↦ (empty, q, rw idle_now, idle (empty_len q v idle_now), v)
    | inr busy ↦ elim (dec_lt 0 wait) [
      | yes positive ↦
          let d = delay_in-Delayed q.window (clock 0) in
          (
            limited wait,
            q,
            next_waits busy positive,
            waiting wait (d.waits positive).0 d.capped d.whole,
            v,
          )
      | no zero_wait ↦ busy_sends busy (omega arith)
    ]
  ]
