-- ===== src/Cmd/Defaults.antt =====
-- internal/irc/cmd/cmd.go: the default commands, for words that nobody registered.
use botje.Prelude.Int.{ℤ}
use botje.Prelude.{
  ℕ, suc, ◌+◌, Text, codes, Bool, true, false, not, ◌&&◌, ◌||◌, List, [], ◌∷◌, ◌++◌, All, insert_by,
  sort_by, trim_space, if◌then◌else◌, text_eq, arith, ◌≡◌, refl, ◌∙◌, Bool-cases, inl, inr,
}
use botje.Event.{Event}
use botje.Cmd.{
  Data, Handler, returned, panicked, DefaultCmd, Registry, Act, called, replied, behind,
  register_default, same, run_group, run_defaults, suggest, handle_unknown,
}

-- No later default has a higher priority.
abbrev pub Descending : List DefaultCmd → Type 0
Descending [] = Unit
Descending (x ∷ xs) = All (λ y. behind x y ≡ false) xs × Descending xs

behind_trans : (x y z : DefaultCmd) → behind x y ≡ false → behind y z ≡ false → behind x z ≡ false
unfolding behind
behind_trans x y z p q = ground arith

behind_flip : (x y : DefaultCmd) → behind x y ≡ true → behind y x ≡ false
unfolding behind
behind_flip x y p = ground arith

All-trans :
    (x y : DefaultCmd) (ys : List DefaultCmd)
    → behind x y ≡ false
    → All (λ z. behind y z ≡ false) ys
    → All (λ z. behind x z ≡ false) ys
All-trans x y [] p a = tt
All-trans x y (z ∷ ys) p a = (behind_trans x y z p a.0, All-trans x y ys p a.1)

insert_by-All :
    (y x : DefaultCmd) (ys : List DefaultCmd)
    → behind y x ≡ false
    → All (λ z. behind y z ≡ false) ys
    → All (λ z. behind y z ≡ false) (insert_by behind x ys)
unfolding insert_by
insert_by-All y x [] p a = (p, tt)
insert_by-All y x (z ∷ ys) p a = elim (Bool-cases (behind x z)) [
  | inl later ↦ rw later (a.0, insert_by-All y x ys p a.1)
  | inr here ↦ rw here (p, a)
]

insert_by-Descending :
    (x : DefaultCmd) (ys : List DefaultCmd) → Descending ys → Descending (insert_by behind x ys)
unfolding insert_by
insert_by-Descending x [] d = (tt, tt)
insert_by-Descending x (y ∷ ys) d = elim (Bool-cases (behind x y)) [
  | inl later ↦
      rw later (insert_by-All y x ys (behind_flip x y later) d.0, insert_by-Descending x ys d.1)
  | inr here ↦ rw here ((here, All-trans x y ys here d.0), d)
]

sort_by-Descending : (xs : List DefaultCmd) → Descending (sort_by behind xs)
unfolding sort_by
sort_by-Descending [] = tt
sort_by-Descending (x ∷ xs) = insert_by-Descending x (sort_by behind xs) (sort_by-Descending xs)

-- After `RegisterDefault` the defaults stand in order of falling priority.
pub register_default-Descending :
    (owner : Text) (priority : ℤ) (cont : Bool) (h : Handler) (r : Registry)
    → Descending (register_default owner priority cont h r).defaults
unfolding register_default
register_default-Descending owner priority cont h r = sort_by-Descending _

-- Does this default run when the group `cont` does, and say that it handled the command?
abbrev pub handles : Data → Bool → DefaultCmd → Bool
handles d cont dc = elim (dc.fn d) [
  | panicked ↦ false
  | returned b ↦ b && same cont dc.cont && not dc.dead
]

abbrev pub some_handles : Data → Bool → List DefaultCmd → Bool
some_handles d cont [] = false
some_handles d cont (dc ∷ ds) = handles d cont dc || some_handles d cont ds

-- The group that does not continue counts as handled exactly if one of its handlers says so.
run_group_handled :
    (d : Data) (ds : List DefaultCmd) → (run_group d false false ds).1 ≡ some_handles d false ds
unfolding run_group
run_group_handled d [] = refl
run_group_handled d (dc ∷ ds) = ground (arith, run_group_handled d ds)

abbrev pub count_replied : List Act → ℕ
count_replied [] = 0
count_replied (called m d ∷ acts) = count_replied acts
count_replied (replied t ∷ acts) = suc (count_replied acts)

count_replied-append :
    (xs ys : List Act) → count_replied (xs ++ ys) ≡ count_replied xs + count_replied ys
count_replied-append [] ys = omega arith
count_replied-append (called m d ∷ xs) ys = count_replied-append xs ys
count_replied-append (replied t ∷ xs) ys = omega (arith, count_replied-append xs ys)

run_group_quiet :
    (d : Data) (cont handled : Bool) (ds : List DefaultCmd)
    → count_replied (run_group d cont handled ds).0 ≡ 0
unfolding run_group
run_group_quiet d cont handled [] = refl
run_group_quiet d cont handled (dc ∷ ds) = ground (
  arith,
  run_group_quiet d cont handled ds,
  run_group_quiet d cont true ds,
  run_group_quiet d cont false ds,
)

run_defaults_quiet :
    (d : Data) (cont : Bool) (r : Registry) → count_replied (run_defaults d cont r).0 ≡ 0
unfolding run_defaults
run_defaults_quiet d cont r = run_group_quiet d cont false r.defaults

run_defaults_handled :
    (d : Data) (r : Registry) → (run_defaults d false r).1 ≡ some_handles d false r.defaults
unfolding run_defaults
run_defaults_handled d r = run_group_handled d r.defaults

-- A word that nobody registered gets the suggestion exactly if no default of the group that does
-- not continue handles it.
pub handle_unknown_replies :
    (dice : ℕ → ℕ) (ev : Event) (word rest : Text) (r : Registry)
    → let d : Data = record {
      command = [];
      text = trim_space (word ++ (codes " " ++ rest));
      event = ev;
    } in
      count_replied (handle_unknown dice ev word rest r).0 ≡ (
        if some_handles d false r.defaults
        then 0
        else count_replied (suggest dice ev word (run_defaults d false r).2))
unfolding handle_unknown
handle_unknown_replies dice ev word rest r =
    let d : Data = record {
      command = [];
      text = trim_space (word ++ (codes " " ++ rest));
      event = ev;
    } in
    let first = run_defaults d false r in
    let said = suggest dice ev word first.2 in
    let more = (run_defaults d true first.2).0 in
    elim (Bool-cases (some_handles d false r.defaults)) [
      | inl e ↦ rw e (rw (run_defaults_handled d r ∙ e) (run_defaults_quiet d false r))
      | inr e ↦ rw e (
          rw (run_defaults_handled d r ∙ e) (
            omega (
              arith,
              count_replied-append first.0 (said ++ more),
              count_replied-append said more,
              run_defaults_quiet d false r,
              run_defaults_quiet d true first.2,
            )))
    ]
