-- ===== src/Aggregate/Regions.antt =====
-- flowcat-core/src/agent/text_filter.rs: the recursion of `process_complete_patterns`, which ends.
use flowcat.Base.{
  ℕ, zero, suc, ◌+◌, ◌<◌, ◌≡◌, refl, sym, ap, subst, false, List, [], ◌∷◌, ◌++◌, Option, none, some,
  length, length-append, arith, All, some-injective, some≢none, Option-cases, inl, inr, ◌∙◌,
}
use mathlib.Core.Bool.{true≢false}
use flowcat.Base.Text.{Text, is_empty}
use flowcat.Base.Values.{and_then, map_some}
use flowcat.Base.Scan.{length-cut, trim}
use flowcat.Aggregate.Pattern.{
  Pattern, PatternMatch, region, find_text, resolve, act, MatchAction, remove, keep, aggregate,
}

-- A pattern that starts with something.
abbrev pub HasStart : Pattern → Type 0
HasStart p = is_empty p.start ≡ false

length-find_text :
    (pat s : Text) (parts : Text × Text)
    → find_text pat s ≡ some parts
    → length s ≡ length parts.0 + (length pat + length parts.1)
unfolding find_text
length-find_text [] s parts h =
    subst (λ x. length s ≡ length x.0 + (0 + length x.1)) (some-injective h) (omega arith)
length-find_text (p ∷ pat) s parts h = length-cut (p ∷ pat) s parts h

length-pos : (s : Text) → is_empty s ≡ false → 0 < length s
length-pos [] h = absurd (true≢false h)
length-pos (c ∷ s) h = omega arith

-- What is around a region is shorter than the text.
length-region :
    (p : Pattern) (s : Text) (parts : Text × (Text × Text))
    → HasStart p
    → region p s ≡ some parts
    → length (parts.0 ++ parts.1.1) < length s
unfolding region
length-region p s parts starts h = opened (find_text p.start s) refl h
  where
    opened :
        (o : Option (Text × Text))
        → find_text p.start s ≡ o
        → and_then o (λ x. map_some (λ (y : Text × Text). (x.0, (y.0, y.1))) (find_text p.end x.1))
          ≡ some parts
        → length (parts.0 ++ parts.1.1) < length s
    opened none e k = absurd (some≢none (sym k))
    opened (some x) e k = closed (find_text p.end x.1) refl k
      where
        closed :
            (o : Option (Text × Text))
            → find_text p.end x.1 ≡ o
            → map_some (λ (y : Text × Text). (x.0, (y.0, y.1))) o ≡ some parts
            → length (parts.0 ++ parts.1.1) < length s
        closed none d k = absurd (some≢none (sym k))
        closed (some y) d k =
            subst (λ (q : Text × (Text × Text)). length (q.0 ++ q.1.1) < length s)
              (some-injective k)
              (omega (
                arith,
                length-find_text p.start s x e,
                length-find_text p.end x.1 y d,
                length-append x.0 y.1,
                length-pos p.start starts,
              ))

-- What the patterns give of a text, without fuel: where none is left, or for the first with a region in the text, by
-- its action; a region that is removed starts again with all of them on what is around it.
pub data Resolves (all : List Pattern)
    : List Pattern → Text → Option PatternMatch × Text → Type 0 where
  unmatched : (s : Text) → Resolves all [] s (none, s)
  passed :
      (p : Pattern) (ps : List Pattern) (s : Text) (r : Option PatternMatch × Text)
      → region p s ≡ none
      → Resolves all ps s r
      → Resolves all (p ∷ ps) s r
  removed :
      (p : Pattern) (ps : List Pattern) (s : Text) (parts : Text × (Text × Text))
      (r : Option PatternMatch × Text)
      → region p s ≡ some parts
      → p.action ≡ remove
      → Resolves all all (parts.0 ++ parts.1.1) r
      → Resolves all (p ∷ ps) s r
  kept :
      (p : Pattern) (ps : List Pattern) (s : Text) (parts : Text × (Text × Text))
      → region p s ≡ some parts
      → p.action ≡ keep
      → Resolves all (p ∷ ps) s (none, parts.0 ++ (trim parts.1.0 ++ parts.1.1))
  gathered :
      (p : Pattern) (ps : List Pattern) (s : Text) (parts : Text × (Text × Text))
      → region p s ≡ some parts
      → p.action ≡ aggregate
      → Resolves all
          (p ∷ ps)
          s
          (some (record { id = p.id; content = trim parts.1.0 }), parts.0 ++ parts.1.1)

module _ (all : List Pattern) where
  module _ (fuel : ℕ) (p : Pattern) (ps : List Pattern) (s : Text) where
    resolve-none :
        region p s ≡ none → resolve (suc fuel) all (p ∷ ps) s ≡ resolve (suc fuel) all ps s
    unfolding resolve
    resolve-none h = ground arith

    resolve-some :
        (parts : Text × (Text × Text))
        → region p s ≡ some parts
        → resolve (suc fuel) all (p ∷ ps) s
          ≡ act p.action p parts (resolve fuel all all (parts.0 ++ parts.1.1))
    unfolding resolve
    resolve-some parts h = ground arith

    act-Resolves :
        (parts : Text × (Text × Text)) (again : Option PatternMatch × Text) (a : MatchAction)
        → region p s ≡ some parts
        → p.action ≡ a
        → Resolves all all (parts.0 ++ parts.1.1) again
        → Resolves all (p ∷ ps) s (act a p parts again)
    act-Resolves parts again remove h does more = removed p ps s parts again h does more
    act-Resolves parts again keep h does more = kept p ps s parts h does
    act-Resolves parts again aggregate h does more = gathered p ps s parts h does

  resolve-Resolves :
      (fuel : ℕ) (ps : List Pattern) (s : Text)
      → All HasStart all
      → All HasStart ps
      → length s < fuel
      → Resolves all ps s (resolve fuel all ps s)
  unfolding resolve
  resolve-Resolves fuel [] s starts these h = unmatched s
  resolve-Resolves zero (p ∷ ps) s starts these h = absurd (omega arith)
  resolve-Resolves (suc fuel) (p ∷ ps) s starts these h = elim (Option-cases (region p s)) [
    | inl absent ↦
        subst (Resolves all (p ∷ ps) s) (sym (resolve-none fuel p ps s absent))
          (passed p ps s _ absent (resolve-Resolves (suc fuel) ps s starts these.1 h))
    | inr (parts, found) ↦
        subst (Resolves all (p ∷ ps) s) (sym (resolve-some fuel p ps s parts found)) (
          act-Resolves fuel p ps s parts _ p.action found refl (
            resolve-Resolves fuel all (parts.0 ++ parts.1.1) starts starts
              (omega (arith, length-region p s parts these.0 found))))
  ]

  -- There is no other outcome.
  Resolves-resolve :
      (fuel : ℕ) (ps : List Pattern) (s : Text) (r : Option PatternMatch × Text)
      → All HasStart all
      → All HasStart ps
      → length s < fuel
      → Resolves all ps s r
      → resolve fuel all ps s ≡ r
  unfolding resolve
  Resolves-resolve zero ps s r starts these h run = absurd (omega arith)
  Resolves-resolve (suc fuel) _ _ _ starts these h (unmatched s) = refl
  Resolves-resolve (suc fuel) _ _ _ starts these h (passed p ps s r absent more) =
      resolve-none fuel p ps s absent ∙ Resolves-resolve (suc fuel) ps s r starts these.1 h more
  Resolves-resolve (suc fuel) _ _ _ starts these h (removed p ps s parts r found does more) =
      let rest = resolve fuel all all (parts.0 ++ parts.1.1) in
      resolve-some fuel p ps s parts found
      ∙ ap (λ a. act a p parts rest) does
      ∙ Resolves-resolve fuel all (parts.0 ++ parts.1.1) r starts starts
          (omega (arith, length-region p s parts these.0 found)) more
  Resolves-resolve (suc fuel) _ _ _ starts these h (kept p ps s parts found does) =
      let rest = resolve fuel all all (parts.0 ++ parts.1.1) in
      resolve-some fuel p ps s parts found ∙ ap (λ a. act a p parts rest) does
  Resolves-resolve (suc fuel) _ _ _ starts these h (gathered p ps s parts found does) =
      let rest = resolve fuel all all (parts.0 ++ parts.1.1) in
      resolve-some fuel p ps s parts found ∙ ap (λ a. act a p parts rest) does

  -- Where each pattern starts with something, the removal of regions ends on any text: with any fuel above the length
  -- of the text, what it gives is the one outcome of the rules without fuel.
  pub resolve-terminates :
      (fuel : ℕ) (s : Text)
      → All HasStart all
      → length s < fuel
      → Resolves all all s (resolve fuel all all s)
        × ((r : Option PatternMatch × Text) → Resolves all all s r → resolve fuel all all s ≡ r)
  resolve-terminates fuel s starts h = (
    resolve-Resolves fuel all s starts starts h,
    λ r run. Resolves-resolve fuel all s r starts starts h run,
  )
