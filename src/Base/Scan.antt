-- ===== src/Base/Scan.antt =====
-- The scanning operations of `str` that the agent calls: `trim`, `find`, `split_once`, `split`,
-- `split_whitespace` and `strip_prefix`.
use Prim.Native.Nat.{ℕ, ◌+◌}
use mathlib.Core.Path.{◌≡◌, refl, sym, ap, subst, ◌∙◌}
use mathlib.Core.Logic.{inl, inr}
use mathlib.Core.Bool.{Bool, true, not}
use mathlib.Core.Option.{Option, none, some}
use mathlib.Core.List.{List, [], ◌∷◌, ◌++◌}
use native.Mathlib.Omega.{arith}
use flowcat.Base.Tests.{if◌then◌else◌, ◌==◌, Bool-cases, if_true, if_false, some-injective}
use flowcat.Base.Lists.{all, keep_if, length, drop, length-append}
use flowcat.Base.Text.{Text, is_empty, is_whitespace, starts_with}
use flowcat.Base.Values.{map_some}

-- `trim_start_matches`
unfoldable pub trim_start_by : (ℕ → Bool) → Text → Text
trim_start_by p [] = []
trim_start_by p (c ∷ s) = if p c then trim_start_by p s else c ∷ s

-- `trim_end_matches`
unfoldable pub trim_end_by : (ℕ → Bool) → Text → Text
trim_end_by p [] = []
trim_end_by p (c ∷ s) = elim (trim_end_by p s) [
  | [] ↦ if p c then [] else c ∷ []
  | d ∷ t ↦ c ∷ d ∷ t
]

-- `trim_matches`
unfoldable pub trim_by : (ℕ → Bool) → Text → Text
unfolding trim_start_by trim_end_by
trim_by p s = trim_end_by p (trim_start_by p s)

unfoldable pub trim_start : Text → Text
unfolding is_whitespace trim_start_by
trim_start s = trim_start_by is_whitespace s

unfoldable pub trim : Text → Text
unfolding is_whitespace trim_by
trim s = trim_by is_whitespace s

abbrev prepend : ℕ → Text × Text → Text × Text
prepend c parts = (c ∷ parts.0, parts.1)

-- What stands before and after the first place of a pattern that is not empty: `find`, with the two
-- slices that its callers take, and `split_once`.
unfoldable pub cut : Text → Text → Option (Text × Text)
unfolding starts_with
cut pat [] = none
cut pat (c ∷ s) =
    let rest = cut pat s in
    if starts_with (c ∷ s) pat
    then some ([], drop (length pat) (c ∷ s))
    else map_some (prepend c) rest

unfoldable pub strip_prefix : Text → Text → Option Text
unfolding starts_with
strip_prefix pat s = if starts_with s pat then some (drop (length pat) s) else none

-- The first piece of a split at the code points that pass a test, and those after it.
unfoldable pub split_by : (ℕ → Bool) → Text → Text × List Text
split_by p [] = ([], [])
split_by p (d ∷ s) =
    let rest = split_by p s in if p d then ([], rest.0 ∷ rest.1) else (d ∷ rest.0, rest.1)

-- `split(c)`
unfoldable pub split : ℕ → Text → Text × List Text
unfolding split_by
split c s = split_by (λ d. d == c) s

-- `split_whitespace`
unfoldable pub words : Text → List Text
unfolding split_by is_whitespace
words s =
    let pieces = split_by is_whitespace s in keep_if (λ w. not (is_empty w)) (pieces.0 ∷ pieces.1)

module _ (p : ℕ → Bool) where
  -- A text with nowhere to split is one piece.
  pub split_by-whole : (s : Text) → all (λ c. not (p c)) s ≡ true → split_by p s ≡ (s, [])
  unfolding split_by
  split_by-whole [] h = refl
  split_by-whole (c ∷ s) h = ground (arith, split_by-whole s)

  -- The first piece ends at the first place to split.
  pub split_by-at :
      (s : Text) (c : ℕ) (t : Text)
      → all (λ d. not (p d)) s ≡ true
      → p c ≡ true
      → split_by p (s ++ c ∷ t) ≡ (s, (split_by p t).0 ∷ (split_by p t).1)
  unfolding split_by
  split_by-at [] c t h k = ground arith
  split_by-at (d ∷ s) c t h k = ground (arith, split_by-at s c t)

starts_with-drop : (s pat : Text) → starts_with s pat ≡ true → s ≡ pat ++ drop (length pat) s
unfolding starts_with
starts_with-drop s [] h = refl
starts_with-drop [] (y ∷ ys) h = ground arith
starts_with-drop (x ∷ xs) (y ∷ ys) h = ground (arith, starts_with-drop xs ys)

-- The parts that `cut` returns are the text, with the pattern between them.
pub cut-joins :
    (pat s : Text) (parts : Text × Text) → cut pat s ≡ some parts → s ≡ parts.0 ++ (pat ++ parts.1)
unfolding cut
cut-joins pat [] parts h = ground arith
cut-joins pat (c ∷ s) parts h = elim (Bool-cases (starts_with (c ∷ s) pat)) [
  | inl here ↦
      subst (λ q. c ∷ s ≡ q.0 ++ (pat ++ q.1)) (some-injective (sym (if_true _ _ here) ∙ h))
        (starts_with-drop (c ∷ s) pat here)
  | inr later ↦
      further pat c s (cut pat s) (λ q e. cut-joins pat s q e) parts (sym (if_false _ _ later) ∙ h)
]
  where
    further :
        (pat : Text) (c : ℕ) (s : Text) (o : Option (Text × Text))
        → ((q : Text × Text) → o ≡ some q → s ≡ q.0 ++ (pat ++ q.1))
        → (parts : Text × Text) → map_some (prepend c) o ≡ some parts
        → c ∷ s ≡ parts.0 ++ (pat ++ parts.1)
    further pat c s none ih parts h = ground arith
    further pat c s (some q) ih parts h =
        subst (λ r. c ∷ s ≡ r.0 ++ (pat ++ r.1)) (some-injective h) (ap (λ t. c ∷ t) (ih q refl))

-- What follows the pattern is shorter than the text by at least the pattern.
pub length-cut :
    (pat s : Text) (parts : Text × Text)
    → cut pat s ≡ some parts
    → length s ≡ length parts.0 + (length pat + length parts.1)
length-cut pat s parts h =
    ap length (cut-joins pat s parts h)
    ∙ length-append parts.0 (pat ++ parts.1)
    ∙ ap (λ n. length parts.0 + n) (length-append pat parts.1)
