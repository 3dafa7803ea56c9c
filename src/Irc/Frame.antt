-- ===== src/Irc/Frame.antt =====
-- internal/irc/parse.go: `LineBuffer`.
use botje.Prelude.{
  ℕ, zero, suc, ◌≤◌, ◌<◌, Text, false, Option, none, some, List, [], ◌∷◌, ◌++◌, ◌==◌, nat_eq,
  to_valid_utf8, if◌then◌else◌, ◌≡◌, refl, ◌∙◌, sym, ap, arith, append_assoc, append-nil, length,
  contains, contains-append, contains-cons, contains-nil, Bool-cases, Option-cases, inl, inr,
}

abbrev pub onto : ℕ → Option (Text × Text) → Option (Text × Text)
onto c none = none
onto c (some (line, rest)) = some (c ∷ line, rest)

-- The bytes before the first newline and those behind it.
pub cut_line : Text → Option (Text × Text)
cut_line [] = none
cut_line (c ∷ cs) = let more = onto c (cut_line cs) in if c == 10 then some ([], cs) else more

-- One `\r` at the end goes too.
chomp : Text → Text
chomp [] = []
chomp (c ∷ []) = if c == 13 then [] else c ∷ []
chomp (c ∷ d ∷ s) = c ∷ chomp (d ∷ s)

unless_empty : Text → List Text
unless_empty [] = []
unless_empty (c ∷ cs) = to_valid_utf8 (c ∷ cs) ∷ []

pub emitted : Text → List Text
unfolding chomp unless_empty
emitted line = unless_empty (chomp line)

-- Each round takes a newline, so the length is fuel enough.
pub feed_in : ℕ → Text → List Text × Text
feed_in zero buf = ([], buf)
feed_in (suc fuel) buf = elim (cut_line buf) [
  | none ↦ ([], buf)
  | some (line, rest) ↦ let (lines, left) = feed_in fuel rest in (emitted line ++ lines, left)
]

-- `Feed`: the lines, and what stays in the buffer.
pub feed : Text → Text → List Text × Text
unfolding feed_in cut_line emitted
feed bytes buf = feed_in (length (buf ++ bytes)) (buf ++ bytes)

-- What the framing means: one pass over the stream, with the open line at hand.
pub frames : Text → Text → List Text × Text
frames open_line [] = ([], open_line)
frames open_line (c ∷ cs) =
    let closed = frames [] cs in
    let longer = frames (open_line ++ c ∷ []) cs in
    if c == 10 then (emitted open_line ++ closed.0, closed.1) else longer

abbrev cut_frames : Text → Text → Option (Text × Text) → List Text × Text
cut_frames open_line buf none = ([], open_line ++ buf)
cut_frames open_line buf (some (line, rest)) =
    let closed = frames [] rest in (emitted (open_line ++ line) ++ closed.0, closed.1)

frames_cut : (open_line buf : Text) → frames open_line buf ≡ cut_frames open_line buf (cut_line buf)
unfolding frames cut_line
frames_cut open_line [] = rw append-nil
frames_cut open_line (c ∷ cs) = elim (Bool-cases (c == 10)) [
  | inl e ↦ rw e (rw append-nil)
  | inr e ↦ rw e (frames_cut (open_line ++ c ∷ []) cs ∙ regroup (cut_line cs))
]
  where
    regroup :
        (o : Option (Text × Text))
        → cut_frames (open_line ++ c ∷ []) cs o ≡ cut_frames open_line (c ∷ cs) (onto c o)
    regroup none = rw append_assoc
    regroup (some (line, rest)) = rw append_assoc

onto-length :
    (c : ℕ) (cs : Text) (o : Option (Text × Text)) (line rest : Text)
    → ((l r : Text) → o ≡ some (l, r) → length r < length cs)
    → (if c == 10 then some ([], cs) else onto c o) ≡ some (line, rest)
    → length rest < suc (length cs)
onto-length c cs none line rest shorter h = ground arith
onto-length c cs (some (l, r)) line rest shorter h = ground (arith, shorter l r refl)

cut_line-length :
    (buf line rest : Text) → cut_line buf ≡ some (line, rest) → length rest < length buf
unfolding cut_line
cut_line-length [] line rest h = absurd (cc)
cut_line-length (c ∷ cs) line rest h =
    onto-length c cs (cut_line cs) line rest (λ l r e. cut_line-length cs l r e) h

feed_in-none : (fuel : ℕ) (buf : Text) → cut_line buf ≡ none → feed_in fuel buf ≡ ([], buf)
unfolding feed_in
feed_in-none zero buf e = refl
feed_in-none (suc fuel) buf e = rw (e, feed_in)

feed_in-some :
    (fuel : ℕ) (buf line rest : Text)
    → cut_line buf ≡ some (line, rest)
    → feed_in (suc fuel) buf ≡ (emitted line ++ (feed_in fuel rest).0, (feed_in fuel rest).1)
unfolding feed_in
feed_in-some fuel buf line rest e = rw (e, feed_in)

-- The loop with enough fuel is the one pass.
feed_in-frames : (fuel : ℕ) (buf : Text) → length buf ≤ fuel → feed_in fuel buf ≡ frames [] buf
feed_in-frames zero buf h = elim (Option-cases (cut_line buf)) [
  | inl e ↦ feed_in-none zero buf e ∙ sym (frames_cut [] buf ∙ ap (cut_frames [] buf) e)
  | inr (a, e) ↦ absurd (omega (arith, cut_line-length buf a.0 a.1 e))
]
feed_in-frames (suc fuel) buf h = elim (Option-cases (cut_line buf)) [
  | inl e ↦ feed_in-none (suc fuel) buf e ∙ sym (frames_cut [] buf ∙ ap (cut_frames [] buf) e)
  | inr (a, e) ↦
      feed_in-some fuel buf a.0 a.1 e
      ∙ ap (λ (r : List Text × Text). (emitted a.0 ++ r.0, r.1))
          (feed_in-frames fuel a.1 (omega (arith, cut_line-length buf a.0 a.1 e)))
      ∙ sym (frames_cut [] buf ∙ ap (cut_frames [] buf) e)
]

-- `Feed` frames the stream that its buffer and its argument make.
pub feed-frames : (bytes buf : Text) → feed bytes buf ≡ frames [] (buf ++ bytes)
unfolding feed
feed-frames bytes buf = feed_in-frames (length (buf ++ bytes)) (buf ++ bytes) (omega arith)

frames-append :
    (open_line xs ys : Text)
    → frames open_line (xs ++ ys) ≡ (
      (frames open_line xs).0 ++ (frames (frames open_line xs).1 ys).0,
      (frames (frames open_line xs).1 ys).1,
    )
unfolding frames
frames-append open_line [] ys = refl
frames-append open_line (c ∷ xs) ys = elim (Bool-cases (c == 10)) [
  | inl e ↦ rw e (rw (frames-append [] xs ys) (rw append_assoc))
  | inr e ↦ rw e (frames-append (open_line ++ c ∷ []) xs ys)
]

-- An open line holds no newline, so framing it again changes nothing.
frames_open : (acc xs : Text) → contains 10 xs ≡ false → frames acc xs ≡ ([], acc ++ xs)
unfolding frames contains
frames_open acc [] h = rw append-nil
frames_open acc (c ∷ xs) h = elim (Bool-cases (c == 10)) [
  | inl e ↦ absurd (ground arith)
  | inr e ↦ rw e (frames_open (acc ++ c ∷ []) xs (ground arith) ∙ rw append_assoc)
]

left_open : (acc xs : Text) → contains 10 acc ≡ false → contains 10 (frames acc xs).1 ≡ false
unfolding frames
left_open acc [] h = h
left_open acc (c ∷ xs) h = elim (Bool-cases (c == 10)) [
  | inl e ↦ rw e (left_open [] xs (contains-nil {A = ℕ} 10))
  | inr e ↦ rw e (
      left_open (acc ++ c ∷ []) xs (
        ground (
          arith,
          contains-append {A = ℕ} 10 acc (c ∷ []),
          contains-cons {A = ℕ} 10 c [],
          contains-nil {A = ℕ} 10,
        )))
]

reframe : (o ys : Text) → contains 10 o ≡ false → frames [] (o ++ ys) ≡ frames o ys
reframe o ys h =
    frames-append [] o ys
    ∙ ap (λ (r : List Text × Text). (r.0 ++ (frames r.1 ys).0, (frames r.1 ys).1))
        (frames_open [] o h)

-- Framing does not depend on how the bytes arrive: two calls of `Feed` give the lines, and leave
-- the buffer, that one call with both pieces does.
pub feed-append :
    (buf xs ys : Text)
    → feed (xs ++ ys) buf
      ≡ ((feed xs buf).0 ++ (feed ys (feed xs buf).1).0, (feed ys (feed xs buf).1).1)
feed-append buf xs ys =
    let first = frames [] (buf ++ xs) in
    feed-frames (xs ++ ys) buf
    ∙ ap (frames []) (sym (append_assoc buf xs ys))
    ∙ frames-append [] (buf ++ xs) ys
    ∙ ap (λ (r : List Text × Text). (first.0 ++ r.0, r.1))
        (sym (
          feed-frames ys first.1
          ∙ reframe first.1 ys (left_open [] (buf ++ xs) (contains-nil {A = ℕ} 10))))
    ∙ ap (λ (r : List Text × Text). (r.0 ++ (feed ys r.1).0, (feed ys r.1).1))
        (sym (feed-frames xs buf))
