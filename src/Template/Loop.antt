-- ===== src/Template/Loop.antt =====
-- flowcat-agent/src/engine.rs: the loop of `var_interpolate_at` over the braces, which ends.
use flowcat.Base.{
  ℕ, zero, suc, ◌+◌, ◌<◌, ◌≡◌, refl, sym, ap, subst, ◌∙◌, inl, inr, [], ◌∷◌, ◌++◌, none, some,
  arith, length, Option-cases, some≢none,
}
use mathlib.Core.List.{append_assoc}
use flowcat.Base.Text.{Text, Json}
use flowcat.Base.Scan.{cut, cut-joins, length-cut}
use flowcat.Graph.{Table}
use flowcat.Template.{scan, opening, closing, Clock, fill, newlines, var_interpolate}

-- What the loop gives of a text, without fuel: each round leaves by its test, fills a placeholder,
-- or keeps braces that are never closed.
pub data Scans (filled : Text → Text) : Text → Text → Type 0 where
  stop : (rest : Text) → cut opening rest ≡ none → Scans filled rest rest
  round :
      (rest : Text) (parts inside : Text × Text) (out : Text)
      → cut opening rest ≡ some parts
      → cut closing parts.1 ≡ some inside
      → Scans filled inside.1 out
      → Scans filled rest (parts.0 ++ (filled inside.0 ++ out))
  unclosed :
      (rest : Text) (parts : Text × Text) (out : Text)
      → cut opening rest ≡ some parts
      → cut closing parts.1 ≡ none
      → Scans filled parts.1 out
      → Scans filled rest (parts.0 ++ (opening ++ out))

module _ (filled : Text → Text) where
  module _ (fuel : ℕ) (rest : Text) where
    scan-stop : cut opening rest ≡ none → scan filled (suc fuel) rest ≡ rest
    unfolding scan
    scan-stop h = ground arith

    module _ (parts : Text × Text) (opens : cut opening rest ≡ some parts) where
      scan-round :
          (inside : Text × Text)
          → cut closing parts.1 ≡ some inside
          → scan filled (suc fuel) rest ≡ parts.0 ++ (filled inside.0 ++ scan filled fuel inside.1)
      unfolding scan
      scan-round inside h = ground arith

      scan-unclosed :
          cut closing parts.1 ≡ none
          → scan filled (suc fuel) rest ≡ parts.0 ++ (opening ++ scan filled fuel parts.1)
      unfolding scan
      scan-unclosed h = ground arith

  -- Fuel above the length of the text is enough: the loop over the braces ends by its own test, whatever the
  -- placeholders are filled with.
  pub scan-Scans :
      (fuel : ℕ) (rest : Text) → length rest < fuel → Scans filled rest (scan filled fuel rest)
  scan-Scans zero rest h = absurd (omega arith)
  scan-Scans (suc fuel) rest h = elim (Option-cases (cut opening rest)) [
    | inl none_open ↦
        subst (Scans filled rest) (sym (scan-stop fuel rest none_open)) (stop rest none_open)
    | inr (parts, opens) ↦
        let shorter = length-cut opening rest parts opens in
        elim (Option-cases (cut closing parts.1)) [
          | inl not_closed ↦
              subst (Scans filled rest) (sym (scan-unclosed fuel rest parts opens not_closed)) (
                unclosed rest parts _ opens not_closed
                  (scan-Scans fuel parts.1 (omega (arith, shorter))))
          | inr (inside, closes) ↦
              subst (Scans filled rest) (sym (scan-round fuel rest parts opens inside closes)) (
                round rest parts inside _ opens closes (
                  scan-Scans fuel inside.1
                    (omega (arith, shorter, length-cut closing parts.1 inside closes))))
        ]
  ]

-- A text with no pattern in it has none in what follows any part of it.
cut-suffix : (pat before after : Text) → cut pat (before ++ after) ≡ none → cut pat after ≡ none
unfolding cut
cut-suffix pat [] after h = h
cut-suffix pat (c ∷ before) after h = ground (arith, cut-suffix pat before after)

not_closed-open :
    (rest : Text) (parts : Text × Text)
    → cut opening rest ≡ some parts
    → cut closing rest ≡ none
    → cut closing parts.1 ≡ none
not_closed-open rest parts opens h = cut-suffix closing (parts.0 ++ opening) parts.1 (
    subst (λ t. cut closing t ≡ none)
      (cut-joins opening rest parts opens ∙ sym (append_assoc parts.0 opening parts.1)) h)

-- A text in which no braces are closed is its own outcome.
Scans-literal :
    (filled : Text → Text) (rest out : Text)
    → Scans filled rest out
    → cut closing rest ≡ none
    → out ≡ rest
Scans-literal filled _ _ (stop rest absent) h = refl
Scans-literal filled _ _ (round rest parts inside out opens closes more) h =
    absurd (some≢none (sym closes ∙ not_closed-open rest parts opens h))
Scans-literal filled _ _ (unclosed rest parts out opens absent more) h =
    ap (λ t. parts.0 ++ (opening ++ t)) (Scans-literal filled parts.1 out more absent)
    ∙ sym (cut-joins opening rest parts opens)

module _ (filled : Text → Text) where
  -- The loop has no other outcome.
  Scans-scan :
      (fuel : ℕ) (rest out : Text)
      → Scans filled rest out
      → length rest < fuel
      → scan filled fuel rest ≡ out
  Scans-scan zero rest out run h = absurd (omega arith)
  Scans-scan (suc fuel) _ _ (stop rest absent) h = scan-stop filled fuel rest absent
  Scans-scan (suc fuel) _ _ (round rest parts inside out opens closes more) h =
      let shorter = length-cut opening rest parts opens in
      scan-round filled fuel rest parts opens inside closes
      ∙ ap (λ t. parts.0 ++ (filled inside.0 ++ t))
          (Scans-scan fuel inside.1 out more
            (omega (arith, shorter, length-cut closing parts.1 inside closes)))
  Scans-scan (suc fuel) _ _ (unclosed rest parts out opens absent more) h =
      scan-unclosed filled fuel rest parts opens absent
      ∙ ap (λ t. parts.0 ++ (opening ++ t))
          (Scans-scan fuel parts.1 out more (omega (arith, length-cut opening rest parts opens)))

  -- The loop over the braces of a prompt ends by its own test on any text, whatever the placeholders are filled
  -- with: with any fuel above the length of the text, what it gives is the one outcome of the rounds
  -- without fuel.
  pub scan-terminates :
      (fuel : ℕ) (rest : Text)
      → length rest < fuel
      → Scans filled rest (scan filled fuel rest)
        × ((out : Text) → Scans filled rest out → scan filled fuel rest ≡ out)
  scan-terminates fuel rest h =
      (scan-Scans filled fuel rest h, λ out run. Scans-scan fuel rest out run h)

-- A template in which no braces are closed is left as it is, whatever the variables hold, but for its escaped newlines.
pub var_interpolate-literal :
    (clock : Clock) (print : Json → Text) (vars : Table Json) (template : Text)
    → cut closing template ≡ none
    → var_interpolate clock print vars template ≡ newlines template
unfolding var_interpolate
var_interpolate-literal clock print vars template h = ap newlines (
    Scans-literal (fill clock print vars) template _
      (scan-Scans (fill clock print vars) (length template + 1) template (omega arith)) h)
