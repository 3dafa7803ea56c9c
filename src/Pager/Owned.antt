-- ===== src/Pager/Owned.antt =====
-- internal/irc/pager/pager.go: timers and the stashes that they belong to.
use botje.Prelude.{
  ℕ, Map, contains, distinct, contains-cons, distinct-cons, true, false, List, [], ◌∷◌, Option,
  some, lookup, remove, lookup-remove, All, ◌==◌, nat_eq, nat_beq_iff, arith, ◌≡◌, ◌≢◌, ◌∙◌, sym,
  ap, Bool-cases, Option-cases, inl, inr,
}
use botje.Sched.{Timer, cancel_in}
use botje.Sched.Tags.{seqs}
use botje.Pager.{Key, key_eq, key_beq_iff, Stash, expire, expire_all}

-- The timer is cancelled, or it is the one of its stash.
abbrev pub Owned : Map Key Stash → Timer Key → Type 0
Owned m t =
    (key : Key) → t.fn ≡ some key → (st : Stash) × (lookup key m ≡ some st) × (st.timer ≡ t.seq)

-- Another stash goes, and takes no timer but its own.
pub remove-Owned :
    (m : Map Key Stash) (key : Key) (st : Stash) (u : Timer Key)
    → lookup key m ≡ some st
    → st.timer ≢ u.seq
    → Owned m u
    → Owned (remove key m) u
remove-Owned m key st u there other o k e =
    let (found, at, same) = o k e in
    elim (Bool-cases (key == k)) [
      | inl itself ↦
          let again : lookup key m ≡ some found =
            ap (λ i. lookup i m) ((key_beq_iff key k).0 itself) ∙ at in
          absurd (other (ap (λ (s : Stash). s.timer) (same_value (sym there ∙ again)) ∙ same))
      | inr away ↦ (found, lookup-remove key k m ∙ rw away at, same)
    ]
  where
    same_value : {a b : Stash} → ◌≡◌ {A = Option Stash} (some a) (some b) → a ≡ b
    same_value h = cc

pub cancel-Owned :
    (m : Map Key Stash) (key : Key) (st : Stash) (ts : List (Timer Key))
    → lookup key m ≡ some st
    → All (Owned m) ts
    → All (Owned (remove key m)) (cancel_in st.timer ts)
cancel-Owned m key st [] there a = tt
cancel-Owned m key st (t ∷ ts) there a = elim (Bool-cases (t.seq == st.timer)) [
  | inl same ↦ rw same ((λ k e. absurd (cc)), cancel-Owned m key st ts there a.1)
  | inr other ↦ rw other (
    remove-Owned m key st t there (λ e. absurd (ground (arith, nat_beq_iff t.seq st.timer))) a.0,
    cancel-Owned m key st ts there a.1,
  )
]

contains_behind : (x y : ℕ) (ys : List ℕ) → contains x (y ∷ ys) ≡ false → contains x ys ≡ false
contains_behind x y ys n = ground (arith, contains-cons x y ys)

apart : (x y : ℕ) (ys : List ℕ) → contains x (y ∷ ys) ≡ false → y ≢ x
apart x y ys n e = absurd (ground (arith, contains-cons x y ys, nat_beq_iff y x))

expire-one :
    (t : Timer Key) (m : Map Key Stash) (u : Timer Key)
    → Owned m t
    → t.seq ≢ u.seq
    → Owned m u
    → Owned (expire t.fn m) u
unfolding expire
expire-one t m u mine other o = elim (Option-cases t.fn) [
  | inl e ↦ rw (e, expire) o
  | inr (key, e) ↦
      let (st, there, same) = mine key e in
      rw (e, expire) (remove-Owned m key st u there (λ h. other (sym same ∙ h)) o)
]

expire-All :
    (t : Timer Key) (m : Map Key Stash) (us : List (Timer Key))
    → Owned m t
    → contains t.seq (seqs us) ≡ false
    → All (Owned m) us
    → All (Owned (expire t.fn m)) us
expire-All t m [] mine n a = tt
expire-All t m (u ∷ us) mine n a = (
  expire-one t m u mine (λ h. apart t.seq u.seq (seqs us) n (sym h)) a.0,
  expire-All t m us mine (contains_behind t.seq u.seq (seqs us) n) a.1,
)

pub expire-Owned :
    (due : List (Timer Key)) (m : Map Key Stash) (u : Timer Key)
    → All (Owned m) due
    → distinct (seqs due) ≡ true
    → contains u.seq (seqs due) ≡ false
    → Owned m u
    → Owned (expire_all due m) u
unfolding expire_all
expire-Owned [] m u a d n o = o
expire-Owned (t ∷ ts) m u a d n o =
    let split = distinct-cons t.seq (seqs ts) d in
    expire-Owned ts (expire t.fn m) u (expire-All t m ts a.0 split.0 a.1) split.1
      (contains_behind u.seq t.seq (seqs ts) n)
      (expire-one t m u a.0 (apart u.seq t.seq (seqs ts) n) o)
