-- ===== src/Markov/Tests.antt =====
-- modules/markov: two lines with a word in common.
use botje.Prelude.{
  ℕ, ◌+◌, Text, codes, text_beq, List, [], ◌∷◌, some, lookup, insert, nat_eq, text_eq, ◌≡◌, refl,
}
use botje.Markov.{Interner, intern_all, known_id, str, windows, learn_tokens, derive_reverse}
use botje.Markov.Trie.{no_kids, add_path}
use botje.Markov.Interning.{IsInverse, strs_of, strs_of-intern_all}
use botje.Markov.Counts.{count_at, learn_all, how_many, count_at-learn_all}
use botje.Markov.Reverse.{reversed_all}
use botje.Markov.Lines.{all_windows, derive_reverse-lines}

abbrev no_words : Interner
no_words = record { ids = []; strs = [] }

no_words-IsInverse : IsInverse no_words
unfolding known_id str lookup
no_words-IsInverse = record { back = λ w id e. absurd (cc); forth = λ w id e. absurd (cc) }

two_words : List Text
two_words = codes "hoi" ∷ codes "jij" ∷ codes "hoi" ∷ []

short_line : windows {A = ℕ} 3 (1 ∷ 2 ∷ []) ≡ (1 ∷ 2 ∷ []) ∷ []
unfolding windows
short_line = refl

long_line : windows {A = ℕ} 2 (1 ∷ 2 ∷ 3 ∷ 4 ∷ []) ≡ (1 ∷ 2 ∷ 3 ∷ []) ∷ (2 ∷ 3 ∷ 4 ∷ []) ∷ []
unfolding windows
long_line = refl

learned-counts :
    let (t, d) = learn_tokens 1 two_words (no_words, record { chains = no_kids; touched = [] }) in
    (count_at 0 [] d.chains ≡ 1)
    × (count_at 0 (1 ∷ []) d.chains ≡ 1)
    × (count_at 1 (0 ∷ []) d.chains ≡ 1)
    × (d.touched ≡ 1 ∷ 0 ∷ [])
unfolding learn_tokens two_words count_at lookup insert text_beq add_path
learned-counts = (refl, refl, refl, refl)

abbrev two_lines : List (List ℕ)
two_lines = (1 ∷ 2 ∷ 3 ∷ []) ∷ (2 ∷ 3 ∷ []) ∷ []

abbrev wins : List (List ℕ)
wins = (1 ∷ 2 ∷ 3 ∷ []) ∷ (2 ∷ 3 ∷ []) ∷ []

count_at-learn_all_example :
    count_at 2 (3 ∷ []) (learn_all wins no_kids)
    ≡ count_at 2 (3 ∷ []) no_kids + how_many (2 ∷ 3 ∷ []) wins
count_at-learn_all_example = count_at-learn_all wins 2 (3 ∷ []) no_kids

derive_reverse-lines_example :
    count_at 3 (2 ∷ []) (derive_reverse (learn_all (all_windows 1 two_lines) no_kids) no_kids)
    ≡ count_at 3 (2 ∷ []) (learn_all (all_windows 1 (reversed_all two_lines)) no_kids)
derive_reverse-lines_example = derive_reverse-lines 1 two_lines 3 (2 ∷ [])

strs_of-intern_all_example :
    IsInverse (intern_all two_words no_words).1
    × (strs_of (intern_all two_words no_words).0 (intern_all two_words no_words).1 ≡ some two_words)
strs_of-intern_all_example = strs_of-intern_all two_words no_words no_words-IsInverse
