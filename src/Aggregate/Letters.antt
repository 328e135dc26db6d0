-- ===== src/Aggregate/Letters.antt =====
-- flowcat-core/src/agent/text_filter.rs: cutting text into sentences loses nothing of it but spaces.
use flowcat.Base.{
  ℕ, zero, suc, ◌≡◌, refl, sym, ap, subst, ◌∙◌, inl, inr, false, not, List, [], ◌∷◌, ◌++◌, Option,
  none, some, if◌then◌else◌, ◌==◌, take, drop, keep_if, arith, Bool-cases, if_true, if_false,
}
use mathlib.Core.List.{append_assoc, append-nil}
use flowcat.Base.Text.{Text, is_whitespace, is_empty}
use flowcat.Base.Scan.{trim_by, trim_start_by, trim_end_by}
use flowcat.Aggregate.{
  SimpleTextAggregator, SkipTagsAggregator, trim_spaces, split_off, match_endofsentence,
  check_sentence_with_lookahead, emitted, append_char, aggregate_simple, flush_simple,
  aggregate_skip_tags, update_tag_state, flush_skip_tags, ends_in_mark, TextAggregator, simple,
  skip_tags,
}

-- What is not a space, in order.
abbrev pub letters : Text → Text
letters s = keep_if (λ c. not (c == 32)) s

abbrev pub concat : List Text → Text
concat [] = []
concat (s ∷ ss) = s ++ concat ss

pub letters-append : (s t : Text) → letters (s ++ t) ≡ letters s ++ letters t
letters-append [] t = refl
letters-append (c ∷ s) t = elim (Bool-cases (not (c == 32))) [
  | inl kept ↦
      if_true _ _ kept
      ∙ ap (λ u. c ∷ u) (letters-append s t)
      ∙ ap (λ u. u ++ letters t) (sym (if_true _ _ kept))
  | inr left ↦
      if_false _ _ left ∙ letters-append s t ∙ ap (λ u. u ++ letters t) (sym (if_false _ _ left))
]

letters-trim_start_by : (s : Text) → letters (trim_start_by (λ c. c == 32) s) ≡ letters s
unfolding trim_start_by
letters-trim_start_by [] = refl
letters-trim_start_by (c ∷ s) = ground (arith, letters-trim_start_by s)

letters-trim_end_by : (s : Text) → letters (trim_end_by (λ c. c == 32) s) ≡ letters s
unfolding trim_end_by
letters-trim_end_by [] = refl
letters-trim_end_by (c ∷ s) = further (trim_end_by (λ c. c == 32) s) (letters-trim_end_by s)
  where
    further :
        (t : Text)
        → letters t ≡ letters s
        → letters (elim t [ [] ↦ if c == 32 then [] else c ∷ [] | d ∷ u ↦ c ∷ d ∷ u ])
          ≡ letters (c ∷ s)
    further [] e = ground (arith, e)
    further (d ∷ u) e = ap (λ x. if not (c == 32) then c ∷ x else x) e

letters-trim_spaces : (s : Text) → letters (trim_spaces s) ≡ letters s
unfolding trim_spaces trim_by
letters-trim_spaces s =
    letters-trim_end_by (trim_start_by (λ c. c == 32) s) ∙ letters-trim_start_by s

take-drop : {A : Type 0} (n : ℕ) (xs : List A) → take n xs ++ drop n xs ≡ xs
take-drop zero xs = refl
take-drop (suc n) [] = refl
take-drop (suc n) (x ∷ xs) = ap (λ ys. x ∷ ys) (take-drop n xs)

-- The letters of what was emitted and what is left are those of a text.
abbrev Keeps : Text → Option Text × SimpleTextAggregator → Type 0
Keeps s r = letters (concat (emitted r.0)) ++ letters r.1.buffered ≡ letters s

split_off-Keeps : (o : Option ℕ) (a : SimpleTextAggregator) → Keeps a.buffered (split_off o a)
split_off-Keeps none a = refl
split_off-Keeps (some marker) a =
    let front = take marker a.buffered in
    ap (λ s. s ++ letters (drop marker a.buffered))
      (ap letters (append-nil (trim_spaces front)) ∙ letters-trim_spaces front)
    ∙ sym (letters-append front (drop marker a.buffered))
    ∙ ap letters (take-drop marker a.buffered)

check-Keeps :
    (ch : ℕ) (a : SimpleTextAggregator) → Keeps a.buffered (check_sentence_with_lookahead ch a)
unfolding check_sentence_with_lookahead
check-Keeps ch a = elim (Bool-cases a.needs_lookahead) [
  | inl looks ↦ elim (Bool-cases (not (is_whitespace ch))) [
    | inl word ↦
        subst (Keeps a.buffered) (sym (if_true _ _ looks ∙ if_true _ _ word))
          (split_off-Keeps (match_endofsentence a.buffered) (record a { needs_lookahead = false }))
    | inr space ↦ subst (Keeps a.buffered) (sym (if_true _ _ looks ∙ if_false _ _ space)) refl
  ]
  | inr calm ↦ elim (Bool-cases (ends_in_mark a.buffered)) [
    | inl marked ↦
        subst (Keeps a.buffered)
          (sym (if_false _ _ calm ∙ ap (λ x. (none, x)) (if_true _ _ marked))) refl
    | inr open_end ↦
        subst (Keeps a.buffered)
          (sym (if_false _ _ calm ∙ ap (λ x. (none, x)) (if_false _ _ open_end))) refl
  ]
]

pub concat-append : (ss ts : List Text) → concat (ss ++ ts) ≡ concat ss ++ concat ts
concat-append [] ts = refl
concat-append (s ∷ ss) ts =
    ap (λ t. s ++ t) (concat-append ss ts) ∙ sym (append_assoc s (concat ss) (concat ts))

-- One code point more, with what the rest of the text gives after it.
further-Keeps :
    (ch : ℕ) (s before : Text) (r : Option Text × SimpleTextAggregator) (out : List Text)
    (left : Text)
    → Keeps (before ++ ch ∷ []) r
    → letters (concat out) ++ letters left ≡ letters r.1.buffered ++ letters s
    → letters (concat (emitted r.0 ++ out)) ++ letters left ≡ letters before ++ letters (ch ∷ s)
further-Keeps ch s before r out left now later =
    ap (λ t. letters t ++ letters left) (concat-append (emitted r.0) out)
    ∙ ap (λ t. t ++ letters left) (letters-append (concat (emitted r.0)) (concat out))
    ∙ append_assoc (letters (concat (emitted r.0))) (letters (concat out)) (letters left)
    ∙ ap (λ t. letters (concat (emitted r.0)) ++ t) later
    ∙ sym (append_assoc (letters (concat (emitted r.0))) (letters r.1.buffered) (letters s))
    ∙ ap (λ t. t ++ letters s) now
    ∙ sym (letters-append (before ++ ch ∷ []) s)
    ∙ ap letters (append_assoc before (ch ∷ []) s)
    ∙ letters-append before (ch ∷ s)

aggregate_simple-letters :
    (s : Text) (a : SimpleTextAggregator)
    → letters (concat (aggregate_simple s a).0) ++ letters (aggregate_simple s a).1.buffered
      ≡ letters a.buffered ++ letters s
unfolding aggregate_simple
aggregate_simple-letters [] a = sym (append-nil (letters a.buffered))
aggregate_simple-letters (ch ∷ s) a =
    let checked = check_sentence_with_lookahead ch (append_char ch a) in
    let rest = aggregate_simple s checked.1 in
    further-Keeps ch s a.buffered checked rest.0 rest.1.buffered (check-Keeps ch (append_char ch a))
      (aggregate_simple-letters s checked.1)

flush_simple-letters :
    (a : SimpleTextAggregator) → letters (concat (emitted (flush_simple a).0)) ≡ letters a.buffered
unfolding flush_simple
flush_simple-letters a = emptied a.buffered
  where
    emptied :
        (s : Text)
        → let r : Option Text × SimpleTextAggregator =
            if is_empty s
            then (none, a)
            else (some (trim_spaces s), record { buffered = []; needs_lookahead = false }) in
          letters (concat (emitted r.0)) ≡ letters s
    emptied [] = refl
    emptied (c ∷ s) = ap letters (append-nil (trim_spaces (c ∷ s))) ∙ letters-trim_spaces (c ∷ s)

aggregate_skip_tags-letters :
    (s : Text) (a : SkipTagsAggregator)
    → letters (concat (aggregate_skip_tags s a).0)
        ++ letters (aggregate_skip_tags s a).1.inner.buffered
      ≡ letters a.inner.buffered ++ letters s
unfolding aggregate_skip_tags update_tag_state
aggregate_skip_tags-letters [] a = sym (append-nil (letters a.inner.buffered))
aggregate_skip_tags-letters (ch ∷ s) a =
    let b = update_tag_state (record a { inner = append_char ch a.inner }) in
    let checked = check_sentence_with_lookahead ch b.inner in
    let skipped = aggregate_skip_tags s b in
    let rest = aggregate_skip_tags s (record b { inner = checked.1 }) in
    let Kept : List Text × SkipTagsAggregator → Type 0 = λ r.
      letters (concat r.0) ++ letters r.1.inner.buffered
      ≡ letters a.inner.buffered ++ letters (ch ∷ s) in
    elim (Bool-cases b.inside) [
      | inl inside ↦ subst Kept (sym (if_true _ _ inside)) (
          further-Keeps ch s a.inner.buffered (none, append_char ch a.inner) skipped.0
            skipped.1.inner.buffered refl (aggregate_skip_tags-letters s b))
      | inr outside ↦ subst Kept (sym (if_false _ _ outside)) (
          further-Keeps ch s a.inner.buffered checked rest.0 rest.1.inner.buffered
            (check-Keeps ch b.inner)
            (aggregate_skip_tags-letters s (record b { inner = checked.1 })))
    ]

-- What an aggregator is trusted with: it holds a text, and gives back all of it but spaces.
pub record IsLossless {A : Type 0} (g : TextAggregator A) : Type 0 where
  pub held : A → Text
  pub aggregates :
      (s : Text) (a : A)
      → letters (concat (g.aggregate s a).0) ++ letters (held (g.aggregate s a).1)
        ≡ letters (held a) ++ letters s
  pub flushes : (a : A) → letters (concat (emitted (g.flush a).0)) ≡ letters (held a)

pub simple-IsLossless : IsLossless simple
simple-IsLossless = record {
  held = λ a. a.buffered;
  aggregates = aggregate_simple-letters;
  flushes = flush_simple-letters;
}

pub skip_tags-IsLossless : IsLossless skip_tags
unfolding flush_skip_tags
skip_tags-IsLossless = record {
  held = λ a. a.inner.buffered;
  aggregates = aggregate_skip_tags-letters;
  flushes = λ a. flush_simple-letters a.inner;
}
