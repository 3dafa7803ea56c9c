-- ===== src/Cmd/Dispatch.antt =====
-- internal/irc/cmd/cmd.go: what `Handle` does with a registered word.
use botje.Prelude.{
  ℕ, Text, Map, Bool, true, false, List, [], ◌∷◌, map, some, lookup, lookup-insert, lookup-remove,
  or_else, delete_if, contains, contains-cons, contains-nil, trim_space, if◌then◌else◌, ◌==◌,
  text_eq, text_beq_iff, arith, ◌≡◌, refl, ◌∙◌, ap,
}
use botje.Event.{Event}
use botje.Cmd.{
  Data, returned, panicked, Registration, Registry, Act, called, registered, remove_command,
  put_or_drop, remove_all, run_all, match_cmd, handle_known, handle,
}

-- The modules whose handler panics on `d`.
abbrev pub panics : Data → Registration → Bool
panics d r = elim (r.fn d) [ panicked ↦ true | returned b ↦ false ]

abbrev pub call_of : Data → Registration → Act
call_of d r = called r.owner d

abbrev pub owners_that : (Registration → Bool) → List Registration → List Text
owners_that p [] = []
owners_that p (r ∷ rs) = let rest = owners_that p rs in if p r then r.owner ∷ rest else rest

run_all_calls : (d : Data) (rs : List Registration) → (run_all d rs).0 ≡ map (call_of d) rs
unfolding run_all
run_all_calls d [] = refl
run_all_calls d (r ∷ rs) = ap (λ l. called r.owner d ∷ l) (run_all_calls d rs)

run_all_dead : (d : Data) (rs : List Registration) → (run_all d rs).1 ≡ owners_that (panics d) rs
unfolding run_all
run_all_dead d [] = refl
run_all_dead d (r ∷ rs) = ground (arith, run_all_dead d rs)

abbrev owned_by : Text → Registration → Bool
owned_by owner x = x.owner == owner

lookup-put_or_drop :
    (word w : Text) (rs : List Registration) (m : Map Text (List Registration))
    → or_else (lookup w (put_or_drop word rs m)) []
      ≡ (if word == w then rs else or_else (lookup w m) [])
unfolding put_or_drop
lookup-put_or_drop word w [] m = rw lookup-remove (ground arith)
lookup-put_or_drop word w (r ∷ rs) m = rw lookup-insert (ground arith)

registered-remove_command :
    (word owner w : Text) (r : Registry)
    → registered w (remove_command word owner r)
      ≡ (if word == w then delete_if (owned_by owner) (registered w r) else registered w r)
unfolding remove_command
registered-remove_command word owner w r =
    lookup-put_or_drop word w _ r.commands ∙ ground (arith, text_beq_iff word w)

abbrev pub owned_by_any : List Text → Registration → Bool
owned_by_any owners x = contains x.owner owners

delete_if-delete_if :
    (owner : Text) (owners : List Text) (rs : List Registration)
    → delete_if (owned_by_any owners) (delete_if (owned_by owner) rs)
      ≡ delete_if (owned_by_any (owner ∷ owners)) rs
delete_if-delete_if owner owners [] = refl
delete_if-delete_if owner owners (r ∷ rs) = ground (
  arith,
  delete_if-delete_if owner owners rs,
  contains-cons r.owner owner owners,
  text_beq_iff owner r.owner,
  text_beq_iff r.owner owner,
)

delete_none : (rs : List Registration) → delete_if (owned_by_any []) rs ≡ rs
delete_none [] = refl
delete_none (r ∷ rs) = ground (arith, delete_none rs, contains-nil r.owner)

registered-remove_all :
    (word : Text) (owners : List Text) (w : Text) (r : Registry)
    → registered w (remove_all word owners r)
      ≡ (if word == w then delete_if (owned_by_any owners) (registered w r) else registered w r)
unfolding remove_all
registered-remove_all word [] w r = ground (arith, delete_none (registered w r))
registered-remove_all word (o ∷ owners) w r =
    registered-remove_all word owners w (remove_command word o r)
    ∙ ground
        (arith, registered-remove_command word o w r, delete_if-delete_if o owners (registered w r))

module _ (dice : ℕ → ℕ) (ev : Event) (r : Registry) (word rest : Text)
    (regs : List Registration) where
  abbrev pub given : Data
  given = record { command = word; text = trim_space rest; event = ev }

  handle_to_known :
      match_cmd ev.msg ≡ some (word, rest)
      → lookup word r.commands ≡ some regs
      → handle dice ev r
        ≡ (true, (handle_known ev word rest regs r).0, (handle_known ev word rest regs r).1)
  unfolding handle
  handle_to_known matched found = rw (matched, handle) (rw (found, handle))

  -- A message with a registered word is a command: every registration of the word is called once,
  -- in the order of registration, with the trimmed text, and nothing else is.
  pub handle_known_calls :
      match_cmd ev.msg ≡ some (word, rest)
      → lookup word r.commands ≡ some regs
      → ((handle dice ev r).0 ≡ true) × ((handle dice ev r).1 ≡ map (call_of given) regs)
  unfolding handle_known
  handle_known_calls matched found =
      let h = handle_to_known matched found in
      (
        ap (λ (x : Bool × List Act × Registry). x.0) h,
        ap (λ (x : Bool × List Act × Registry). x.1) h ∙ run_all_calls given regs,
      )

  -- Afterwards the word has lost exactly the registrations of the modules whose handler panicked,
  -- and every other word has kept its own.
  pub registered-handle :
      match_cmd ev.msg ≡ some (word, rest)
      → lookup word r.commands ≡ some regs
      → (w : Text)
      → registered w (handle dice ev r).2 ≡ (
          if word == w
          then delete_if (owned_by_any (owners_that (panics given) regs)) (registered w r)
          else registered w r)
  unfolding handle_known
  registered-handle matched found w =
      ap (λ (x : Bool × List Act × Registry). registered w x.2) (handle_to_known matched found)
      ∙ registered-remove_all word (run_all given regs).1 w r
      ∙ ap
          (λ owners.
            if word == w then delete_if (owned_by_any owners) (registered w r) else registered w r)
          (run_all_dead given regs)
