-- ===== src/Wake/Phrases.antt =====
-- flowcat-core/src/agent/wakeword.rs: `match_wake` hears a phrase where its words stand one after another as whole words
-- of the text.
use mathlib.Core.Bool.{true≢false}
use flowcat.Base.{
  ℕ, suc, ◌≤◌, ◌<◌, ◌≡◌, refl, sym, ap, ap₂, subst, ◌∙◌, ◌↔◌, ◌⊎◌, inl, inr, true, false, List, [],
  ◌∷◌, ◌++◌, some, length, ltb, ltb→lt, if_true, if_false, Bool-cases, Option-cases, some≢none,
  arith, &&-left, &&-right, length-append,
}
use flowcat.Base.Text.{Text, is_empty, text_eq, text_eq→eq, text_eq_self}
use flowcat.Base.Values.{or_else}
use flowcat.Wake.{split_words, word_offsets, matches_here, find_phrase, first_phrase, match_wake}
use flowcat.Wake.Words.{words_of, words_of-word_offsets}

-- The words of a phrase stand one after another.
abbrev pub Occurs : List Text → List Text → Type 0
Occurs phrase words =
    (before : List Text) × ((after : List Text) × (words ≡ before ++ (phrase ++ after)))

-- Some phrase does, which has a word.
abbrev pub IsHeard : List (List Text) → List Text → Type 0
IsHeard [] words = ⊥
IsHeard (phrase ∷ phrases) words =
    ((is_empty phrase ≡ false) × Occurs phrase words) ⊎ IsHeard phrases words

matches_here-prefix :
    (phrase : List Text) (words : List (ℕ × Text))
    → matches_here phrase words ≡ true
    → (after : List Text) × (words_of words ≡ phrase ++ after)
unfolding matches_here
matches_here-prefix [] words h = (words_of words, refl)
matches_here-prefix (p ∷ phrase) [] h = absurd (true≢false (sym h))
matches_here-prefix (p ∷ phrase) (w ∷ words) h =
    let rest =
      matches_here-prefix phrase words (&&-right (text_eq w.1 p) (matches_here phrase words) h) in
    (
      rest.0,
      ap₂ (λ x xs. x ∷ xs)
          (text_eq→eq w.1 p (&&-left (text_eq w.1 p) (matches_here phrase words) h)) rest.1,
    )

prefix-matches_here :
    (phrase after : List Text) (words : List (ℕ × Text))
    → words_of words ≡ phrase ++ after
    → matches_here phrase words ≡ true
unfolding matches_here
prefix-matches_here [] after words h = refl
prefix-matches_here (p ∷ phrase) after [] h = absurd (omega (arith, ap length h))
prefix-matches_here (p ∷ phrase) after (w ∷ words) h =
    let first : w.1 ≡ p = ap (head_or p) h in
    let rest = prefix-matches_here phrase after words (ap tail h) in
    ground (arith, subst (λ t. text_eq w.1 t ≡ true) first (text_eq_self w.1), rest)
  where
    head_or : Text → List Text → Text
    head_or d [] = d
    head_or d (x ∷ xs) = x

    tail : List Text → List Text
    tail [] = []
    tail (x ∷ xs) = xs

length-words_of : (words : List (ℕ × Text)) → length (words_of words) ≡ length words
length-words_of [] = refl
length-words_of (w ∷ words) = ap suc (length-words_of words)

length-pos : (phrase : List Text) → is_empty phrase ≡ false → 0 < length phrase
length-pos [] h = absurd (true≢false h)
length-pos (p ∷ phrase) h = omega arith

-- A phrase that occurs is not longer than the words.
length-Occurs : (phrase words : List Text) → Occurs phrase words → length phrase ≤ length words
length-Occurs phrase words (before, (after, cuts)) =
    subst (λ (ws : List Text). length phrase ≤ length ws) (sym cuts)
      (omega (arith, length-append before (phrase ++ after), length-append phrase after))

find_phrase-Occurs :
    (phrase : List Text) (words : List (ℕ × Text)) (at : ℕ)
    → find_phrase phrase words ≡ some at
    → Occurs phrase (words_of words)
unfolding find_phrase
find_phrase-Occurs phrase [] at h = absurd (some≢none (sym h))
find_phrase-Occurs phrase (w ∷ words) at h =
    elim (Bool-cases (ltb (length (w ∷ words)) (length phrase))) [
      | inl short ↦ absurd (some≢none (sym h ∙ if_true _ _ short))
      | inr long ↦ elim (Bool-cases (matches_here phrase (w ∷ words))) [
        | inl here ↦ ([], matches_here-prefix phrase (w ∷ words) here)
        | inr later ↦
            let (before, (after, cuts)) =
              find_phrase-Occurs phrase words at
                (sym (if_false _ _ long ∙ if_false _ _ later) ∙ h) in
            (w.1 ∷ before, (after, ap (λ ws. w.1 ∷ ws) cuts))
      ]
    ]

Occurs-tail :
    (phrase : List Text) (w : ℕ × Text) (words : List (ℕ × Text))
    → matches_here phrase (w ∷ words) ≡ false
    → Occurs phrase (words_of (w ∷ words))
    → Occurs phrase (words_of words)
Occurs-tail phrase w words h ([], (after, cuts)) =
    absurd (true≢false (sym (prefix-matches_here phrase after (w ∷ words) cuts) ∙ h))
Occurs-tail phrase w words h (b ∷ before, (after, cuts)) = (before, (after, ap tail cuts))
  where
    tail : List Text → List Text
    tail [] = []
    tail (x ∷ xs) = xs

Occurs-find_phrase :
    (phrase : List Text) (words : List (ℕ × Text))
    → is_empty phrase ≡ false
    → Occurs phrase (words_of words)
    → (at : ℕ) × (find_phrase phrase words ≡ some at)
unfolding find_phrase
Occurs-find_phrase phrase [] begun o =
    absurd (omega (arith, length-Occurs phrase [] o, length-pos phrase begun))
Occurs-find_phrase phrase (w ∷ words) begun o =
    elim (Bool-cases (ltb (length (w ∷ words)) (length phrase))) [
      | inl short ↦ absurd (
          omega (
            arith,
            ltb→lt (length (w ∷ words)) (length phrase) short,
            length-Occurs phrase (words_of (w ∷ words)) o,
            length-words_of words,
          ))
      | inr long ↦ elim (Bool-cases (matches_here phrase (w ∷ words))) [
        | inl here ↦ (w.0, if_false _ _ long ∙ if_true _ _ here)
        | inr later ↦
            let rest = Occurs-find_phrase phrase words begun (Occurs-tail phrase w words later o) in
            (rest.0, if_false _ _ long ∙ if_false _ _ later ∙ rest.1)
      ]
    ]

first_phrase-IsHeard :
    (phrases : List (List Text)) (words : List (ℕ × Text)) (at : ℕ)
    → first_phrase phrases words ≡ some at
    → IsHeard phrases (words_of words)
unfolding first_phrase
first_phrase-IsHeard [] words at h = absurd (some≢none (sym h))
first_phrase-IsHeard (phrase ∷ phrases) words at h = elim (Bool-cases (is_empty phrase)) [
  | inl empty ↦ inr (first_phrase-IsHeard phrases words at (sym (if_true _ _ empty) ∙ h))
  | inr begun ↦ elim (Option-cases (find_phrase phrase words)) [
    | inl absent ↦ inr (
        first_phrase-IsHeard phrases words at
          (sym (if_false _ _ begun ∙ ap (λ o. or_else o (first_phrase phrases words)) absent) ∙ h))
    | inr (here, found) ↦ inl (begun, find_phrase-Occurs phrase words here found)
  ]
]

IsHeard-first_phrase :
    (phrases : List (List Text)) (words : List (ℕ × Text))
    → IsHeard phrases (words_of words)
    → (at : ℕ) × (first_phrase phrases words ≡ some at)
unfolding first_phrase
IsHeard-first_phrase [] words heard = absurd heard
IsHeard-first_phrase (phrase ∷ phrases) words (inl (begun, o)) =
    let found = Occurs-find_phrase phrase words begun o in
    (found.0, if_false _ _ begun ∙ ap (λ o. or_else o (first_phrase phrases words)) found.1)
IsHeard-first_phrase (phrase ∷ phrases) words (inr later) =
    let rest = IsHeard-first_phrase phrases words later in
    elim (Bool-cases (is_empty phrase)) [
      | inl empty ↦ (rest.0, if_true _ _ empty ∙ rest.1)
      | inr begun ↦ elim (Option-cases (find_phrase phrase words)) [
        | inl absent ↦ (
          rest.0,
          if_false _ _ begun ∙ ap (λ o. or_else o (first_phrase phrases words)) absent ∙ rest.1,
        )
        | inr (here, found) ↦
            (here, if_false _ _ begun ∙ ap (λ o. or_else o (first_phrase phrases words)) found)
      ]
    ]

pub match_wake-IsHeard :
    (to_lowercase : Text → Text) (phrases : List (List Text)) (text : Text)
    → ((at : ℕ) × (match_wake to_lowercase phrases text ≡ some at))
      ↔ IsHeard phrases (split_words [] (to_lowercase text))
unfolding match_wake
match_wake-IsHeard to_lowercase phrases text =
    let lower = to_lowercase text in
    let same = words_of-word_offsets lower in
    (
      λ (at, h).
          subst (IsHeard phrases) same (first_phrase-IsHeard phrases (word_offsets lower) at h),
      λ heard.
          IsHeard-first_phrase phrases (word_offsets lower)
            (subst (IsHeard phrases) (sym same) heard),
    )
