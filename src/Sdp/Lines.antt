-- ===== src/Sdp/Lines.antt =====
-- flowcat-core/src/sip/sdp.rs: the lines that are built are the lines that are read.
use flowcat.Base.{
  ◌≡◌, refl, ap, ap₂, ◌∙◌, true, not, ◌&&◌, List, [], ◌∷◌, ◌++◌, if◌then◌else◌, ◌==◌, map, all, All,
  arith,
}
use flowcat.Base.Text.{Text}
use flowcat.Base.Scan.{trim_end_by}
use flowcat.Sdp.{with_ends, split_newlines, lines}

-- No code point of it ends a line.
abbrev pub IsLine : Text → Type 0
IsLine s = all (λ c. not (c == 10) && not (c == 13)) s ≡ true

split_newlines-end :
    (s rest : Text)
    → IsLine s
    → split_newlines (s ++ 13 ∷ 10 ∷ rest) ≡ (s ++ 13 ∷ []) ∷ split_newlines rest
unfolding split_newlines
split_newlines-end [] rest h = refl
split_newlines-end (c ∷ s) rest h = ground (arith, split_newlines-end s rest)

trim_end_by-end : (s : Text) → IsLine s → trim_end_by (λ c. c == 13) (s ++ 13 ∷ []) ≡ s
unfolding trim_end_by
trim_end_by-end [] h = refl
trim_end_by-end (c ∷ s) h =
    ap (λ u. elim u [ [] ↦ if c == 13 then [] else c ∷ [] | d ∷ t ↦ c ∷ d ∷ t ])
      (trim_end_by-end s (ground arith))
    ∙ kept s
  where
    kept : (u : Text) → (elim u [ [] ↦ if c == 13 then [] else c ∷ [] | d ∷ t ↦ c ∷ d ∷ t ]) ≡ c ∷ u
    kept [] = ground arith
    kept (d ∷ t) = refl

pub lines-with_ends : (ls : List Text) → All IsLine ls → lines (with_ends ls) ≡ ls
unfolding lines with_ends
lines-with_ends [] all = refl
lines-with_ends (l ∷ ls) all =
    ap (map (trim_end_by (λ c. c == 13))) (split_newlines-end l (with_ends ls) all.0)
    ∙ ap₂ (λ x xs. x ∷ xs) (trim_end_by-end l all.0) (lines-with_ends ls all.1)
