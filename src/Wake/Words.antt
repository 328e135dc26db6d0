-- ===== src/Wake/Words.antt =====
-- flowcat-core/src/agent/wakeword.rs: `word_offsets` gives the words of the text, every one.
use mathlib.Core.List.{append_assoc, append-nil}
use mathlib.Core.Bool.{true≢false}
use flowcat.Base.{
  ℕ, suc, ◌+◌, ◌≡◌, refl, sym, ap, subst, ◌∙◌, inl, inr, true, false, ◌==◌, ==_self, ==→eq, List,
  [], ◌∷◌, ◌++◌, Option, none, some, ◌⊎◌, map, length, take, drop, drop-drop, drop-behind, All,
  if_true, if_false, Bool-cases, arith,
}
use flowcat.Base.Text.{Text, is_empty, is_whitespace, starts_with}
use flowcat.Wake.{bytes, split_words, find_in, offsets_from, word_offsets}

abbrev IsSpace : ℕ → Type 0
IsSpace c = is_whitespace c ≡ true

abbrev IsLetter : ℕ → Type 0
IsLetter c = is_whitespace c ≡ false

-- A text that begins with a word, behind spaces.
abbrev Leads : Text → Text → List Text → Type 0
Leads s word words =
    (spaces : Text) × ((rest : Text) × ((s ≡ spaces ++ (word ++ rest))
        × (All IsSpace spaces × (All IsLetter word × (words ≡ split_words [] rest)))))

-- A word that is being read goes on up to a space or the end.
abbrev GoesOn : Text → Text → List Text → Type 0
GoesOn word s words =
    (more : Text) × ((rest : Text) × ((s ≡ more ++ rest)
        × (All IsLetter more × (words ≡ (word ++ more) ∷ split_words [] rest))))

some_letter : (c : ℕ) (word : Text) → is_empty (word ++ c ∷ []) ≡ false
some_letter c [] = refl
some_letter c (d ∷ word) = refl

split_words-GoesOn : (word s : Text) → is_empty word ≡ false → GoesOn word s (split_words word s)
unfolding split_words
split_words-GoesOn word [] begun =
    ([], ([], (refl, (tt, if_false _ _ begun ∙ ap (λ w. w ∷ []) (sym (append-nil word))))))
split_words-GoesOn word (c ∷ s) begun = elim (Bool-cases (is_whitespace c)) [
  | inl space ↦ (
    [],
    (
      c ∷ s,
      (
        refl,
        (
          tt,
          if_true _ _ space
              ∙ if_false _ _ begun
              ∙ ap (λ w. w ∷ split_words [] s) (sym (append-nil word))
              ∙ ap (λ ws. (word ++ []) ∷ ws) (sym (if_true _ _ space)),
        ),
      ),
    ),
  )
  | inr letter ↦
      let (more, (rest, (cuts, (letters, words)))) =
        split_words-GoesOn (word ++ c ∷ []) s (some_letter c word) in
      (
        c ∷ more,
        (
          rest,
          (
            ap (λ t. c ∷ t) cuts,
            (
              (letter, letters),
              if_false _ _ letter
                  ∙ words
                  ∙ ap (λ w. w ∷ split_words [] rest) (append_assoc word (c ∷ []) more),
            ),
          ),
        ),
      )
]

abbrev Begins : Text → List Text → Type 0
Begins s [] = Unit
Begins s (word ∷ words) = (is_empty word ≡ false) × Leads s word words

spaced : (c : ℕ) (s : Text) (words : List Text) → IsSpace c → Begins s words → Begins (c ∷ s) words
spaced c s [] space b = tt
spaced c s (word ∷ words) space (begun, (spaces, (rest, (cuts, (all, more))))) =
    (begun, (c ∷ spaces, (rest, (ap (λ t. c ∷ t) cuts, ((space, all), more)))))

split_words-Begins : (s : Text) → Begins s (split_words [] s)
unfolding split_words
split_words-Begins [] = tt
split_words-Begins (c ∷ s) = elim (Bool-cases (is_whitespace c)) [
  | inl space ↦
      subst (Begins (c ∷ s)) (sym (if_true _ _ space))
        (spaced c s (split_words [] s) space (split_words-Begins s))
  | inr letter ↦
      let (more, (rest, (cuts, (letters, words)))) = split_words-GoesOn (c ∷ []) s refl in
      subst (Begins (c ∷ s)) (sym (if_false _ _ letter ∙ words))
        (refl, ([], (rest, (ap (λ t. c ∷ t) cuts, (tt, ((letter, letters), refl))))))
]

starts_with-append : (word rest : Text) → starts_with (word ++ rest) word ≡ true
unfolding starts_with
starts_with-append [] rest = no_more rest
  where
    no_more : (s : Text) → starts_with s [] ≡ true
    no_more [] = refl
    no_more (c ∷ s) = refl
starts_with-append (c ∷ word) rest = ground (arith, ==_self c, starts_with-append word rest)

-- The word is found where it stands.
find_in-spaces :
    (c : ℕ) (word spaces rest : Text)
    → All IsSpace spaces
    → IsLetter c
    → find_in (spaces ++ (c ∷ word ++ rest)) (c ∷ word) ≡ some (length spaces)
unfolding find_in starts_with
find_in-spaces c word [] rest all letter = if_true _ _ (starts_with-append (c ∷ word) rest)
find_in-spaces c word (d ∷ spaces) rest all letter =
    if_false _ _ (elsewhere (Bool-cases (d == c)))
    ∙ ap (λ (o : Option ℕ). elim o as (λ x. Option ℕ) [ none ↦ none | some n ↦ some (suc n) ])
        (find_in-spaces c word spaces rest all.1 letter)
  where
    elsewhere :
        ((d == c) ≡ true) ⊎ ((d == c) ≡ false)
        → starts_with (d ∷ spaces ++ (c ∷ word ++ rest)) (c ∷ word) ≡ false
    elsewhere (inl same) =
        absurd (true≢false (sym all.0 ∙ ap is_whitespace (==→eq d c same) ∙ letter))
    elsewhere (inr other) = ground (arith, other)

find_in-word :
    (word spaces rest : Text)
    → is_empty word ≡ false
    → All IsSpace spaces
    → All IsLetter word
    → find_in (spaces ++ (word ++ rest)) word ≡ some (length spaces)
find_in-word [] spaces rest begun all letters = absurd (true≢false begun)
find_in-word (c ∷ word) spaces rest begun all letters =
    find_in-spaces c word spaces rest all letters.0

abbrev pub words_of : List (ℕ × Text) → List Text
words_of offsets = map (λ (w : ℕ × Text). w.1) offsets

words_of-offsets_from :
    (idx : ℕ) (words : List Text) (s : Text)
    → words ≡ split_words [] (drop idx s)
    → words_of (offsets_from idx words s) ≡ words
unfolding offsets_from
words_of-offsets_from idx [] s h = refl
words_of-offsets_from idx (word ∷ words) s h =
    from_lead (λ k. words_of-offsets_from k words s)
      (subst (Begins (drop idx s)) (sym h) (split_words-Begins (drop idx s)))
  where
    from_lead :
        ((k : ℕ) → words ≡ split_words [] (drop k s) → words_of (offsets_from k words s) ≡ words)
        → Begins (drop idx s) (word ∷ words)
        → words_of (offsets_from idx (word ∷ words) s) ≡ word ∷ words
    from_lead further (begun, (spaces, (rest, (cuts, (all, (letters, more)))))) =
        ap found_at
          (ap (λ t. find_in t word) cuts ∙ find_in-word word spaces rest begun all letters)
        ∙ ap (λ ws. word ∷ ws)
            (further (idx + length spaces + length word)
              (more ∙ ap (split_words []) (sym (left_over spaces rest cuts))))
      where
        found_at : Option ℕ → List Text
        found_at o = words_of (elim o as (λ x. List (ℕ × Text)) [
          | none ↦ offsets_from idx words s
          | some rel ↦
              (bytes (take (idx + rel) s), word) ∷ offsets_from (idx + rel + length word) words s
        ])

        left_over :
            (spaces rest : Text)
            → drop idx s ≡ spaces ++ (word ++ rest)
            → drop (idx + length spaces + length word) s ≡ rest
        left_over spaces rest cuts =
            sym (drop-drop (idx + length spaces) (length word) s)
            ∙ ap (drop (length word)) (sym (drop-drop idx (length spaces) s))
            ∙ ap (λ t. drop (length word) (drop (length spaces) t)) cuts
            ∙ ap (drop (length word)) (drop-behind spaces (word ++ rest))
            ∙ drop-behind word rest

-- The words that `word_offsets` finds are the words of the text, in order.
pub words_of-word_offsets : (s : Text) → words_of (word_offsets s) ≡ split_words [] s
unfolding word_offsets
words_of-word_offsets s = words_of-offsets_from 0 (split_words [] s) s refl
