-- ===== src/Pager/Pages.antt =====
-- internal/irc/pager/pager.go: the lines that wait, and what a burst takes of them.
use botje.Prelude.{
  ℕ, zero, suc, ◌+◌, ◌*◌, ◌≤◌, ◌<◌, Text, Map, List, [], ◌∷◌, ◌++◌, Option, none, some, lookup,
  insert, lookup-insert, length, length-drop, take, drop, drop_all, drop-drop, drop-append, ltb,
  tests, ==_refl, nat_eq, arith, ◌≡◌, refl, ◌∙◌, sym, ap, Bool-cases, Option-cases, inl, inr,
}
use botje.Pager.Timers.{lookup-drop_stash}
use botje.Pager.{
  Key, key_eq, Stash, Pager, page, to_channel, drop_stash, stash_lines, reply, next_page, more_of,
}

-- The lines that wait under a key.
abbrev pub unseen : Option Stash → List Text
unseen none = []
unseen (some st) = drop st.displayed st.msgs

abbrev pub waiting : Key → Pager → List Text
waiting key p = unseen (lookup key p.stashes)

page_rest : (n : ℕ) (ls : List Text) → (page n ls).1 ≡ drop n ls
unfolding page
page_rest zero ls = refl
page_rest (suc n) [] = refl
page_rest (suc n) (l ∷ ls) = page_rest n ls

length-page : (n : ℕ) (ls : List Text) → n ≤ length ls → length (page n ls).0 ≡ n
unfolding page
length-page zero ls h = refl
length-page (suc n) [] h = absurd (omega arith)
length-page (suc n) (l ∷ ls) h = ap suc (length-page n ls (omega arith))

drop_exact : (n : ℕ) (xs ys : List Text) → length xs ≡ n → drop n (xs ++ ys) ≡ ys
drop_exact n xs ys h =
    drop-append n xs ys (omega arith) ∙ ap (λ l. l ++ ys) (drop_all n xs (omega arith))

length-take_exact : (n : ℕ) (xs : List Text) → n ≤ length xs → length (take n xs) ≡ n
length-take_exact zero xs h = refl
length-take_exact (suc n) [] h = absurd (omega arith)
length-take_exact (suc n) (x ∷ xs) h = ap suc (length-take_exact n xs (omega arith))

lookup_set :
    (key : Key) (st : Stash) (m : Map Key Stash)
    → unseen (lookup key (insert key st m)) ≡ drop st.displayed st.msgs
lookup_set key st m = rw (lookup-insert key key st m) (rw (==_refl key) refl)

-- A reply sends the first page of its lines, and what did not fit waits, in place of whatever waited
-- under the key before.
pub reply-waiting :
    (now max : ℕ) (key : Key) (lines : List Text) (p : Pager)
    → ((reply now max key lines p).1 ≡ to_channel key.channel (page max lines).0)
      × (waiting key (reply now max key lines p).0 ≡ drop max lines)
unfolding reply stash_lines
reply-waiting now max key lines p = (
  refl,
  elim (Bool-cases (ltb max (length lines))) [
    | inl long ↦ rw long (
        lookup_set key _ (drop_stash key p).stashes
        ∙ drop_exact max (page max lines).0 (page max lines).1 (length-page max lines (omega tests))
        ∙ page_rest max lines)
    | inr short ↦
        rw short (ap unseen (lookup-drop_stash key p) ∙ sym (drop_all max lines (omega tests)))
  ],
)

next_page-waiting :
    (max : ℕ) (key : Key) (st : Stash) (p : Pager)
    → waiting key (next_page max key st p).0 ≡ drop max (drop st.displayed st.msgs)
unfolding next_page
next_page-waiting max key st p =
    let old = drop st.displayed st.msgs in
    let seen = take st.displayed st.msgs in
    elim (Bool-cases (ltb (st.displayed + max) (length st.msgs))) [
      | inl left ↦
          let room : max ≤ length old = omega (tests, length-drop st.displayed st.msgs) in
          let shown : length seen ≡ st.displayed =
            length-take_exact st.displayed st.msgs (omega tests) in
          rw left (
            lookup_set key _ p.stashes
            ∙ sym (
                drop-drop max st.displayed (st.displayed + max)
                  (seen ++ ((page max old).0 ++ (page max old).1)) refl)
            ∙ ap (drop max)
                (drop_exact st.displayed seen ((page max old).0 ++ (page max old).1) shown)
            ∙ drop_exact max (page max old).0 (page max old).1 (length-page max old room)
            ∙ page_rest max old)
      | inr done ↦ rw done (
          ap unseen (lookup-drop_stash key p)
          ∙ sym (drop_all max old (omega (tests, length-drop st.displayed st.msgs))))
    ]

-- `!more` for a stash sends the next page of what waits, and leaves the rest waiting.
pub more_of-waiting :
    (max : ℕ) (key : Key) (st : Stash) (p : Pager)
    → lookup key p.stashes ≡ some st
    → ((more_of max key p).1 ≡ to_channel key.channel (page max (waiting key p)).0)
      × (waiting key (more_of max key p).0 ≡ drop max (waiting key p))
unfolding more_of next_page
more_of-waiting max key st p e =
    (rw (e, more_of) refl, rw (e, more_of) (next_page-waiting max key st p))

-- `!more`, `n` times.
abbrev pub more_times : ℕ → ℕ → Key → Pager → Pager
more_times zero max key p = p
more_times (suc n) max key p = more_times n max key (more_of max key p).0

more_of-drop :
    (max : ℕ) (key : Key) (p : Pager) → waiting key (more_of max key p).0 ≡ drop max (waiting key p)
unfolding more_of
more_of-drop max key p = elim (Option-cases (lookup key p.stashes)) [
  | inl e ↦ rw (e, more_of) (ap unseen e ∙ sym (drop_all max [] (omega arith)))
  | inr (st, e) ↦ rw (e, more_of) (next_page-waiting max key st p)
]

more_times-drop :
    (n max : ℕ) (key : Key) (p : Pager)
    → waiting key (more_times n max key p) ≡ drop (n * max) (waiting key p)
more_times-drop zero max key p = ap (λ i. drop i (waiting key p)) (none_of max)
  where
    none_of : (m : ℕ) → 0 ≡ zero * m
    none_of m = omega arith
more_times-drop (suc n) max key p =
    more_times-drop n max key (more_of max key p).0
    ∙ ap (drop (n * max)) (more_of-drop max key p)
    ∙ drop-drop (n * max) max (suc n * max) (waiting key p) (omega arith)

-- With a budget of a line or more, as many requests as there are lines waiting leave none waiting.
pub more_times-waiting :
    (max : ℕ) (key : Key) (p : Pager)
    → 0 < max
    → waiting key (more_times (length (waiting key p)) max key p) ≡ []
more_times-waiting max key p h =
    more_times-drop (length (waiting key p)) max key p
    ∙ drop_all (length (waiting key p) * max) (waiting key p)
        (enough (length (waiting key p)) max h)
  where
    enough : (n m : ℕ) → 0 < m → n ≤ n * m
    enough zero m q = omega arith
    enough (suc n) m q = omega (arith, enough n m q)
