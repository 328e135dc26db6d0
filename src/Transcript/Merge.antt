-- ===== src/Transcript/Merge.antt =====
-- A transcript does not depend on how the speech was cut into deltas.
use mathlib.Core.List.{append_assoc, append-nil}
use flowcat.Base.{
  ℕ, ◌≡◌, refl, sym, ap, subst, ◌∙◌, inl, inr, true, List, [], ◌∷◌, ◌++◌, map, if_true, if_false,
  Bool-cases,
}
use flowcat.Base.Text.{Text}
use flowcat.Transcript.{Speaker, user, bot, same_speaker, TranscriptLine, Transcript, extend, push}

same_self : (s : Speaker) → same_speaker s s ≡ true
unfolding same_speaker
same_self user = refl
same_self bot = refl

-- A line in front of extended lines is left alone.
extend-behind :
    (s : Speaker) (a b : Text) (line : TranscriptLine) (lines : Transcript)
    → extend s b (line ∷ extend s a lines) ≡ line ∷ extend s b (extend s a lines)
unfolding extend
extend-behind s a b line [] = refl
extend-behind s a b line (last ∷ []) = elim (Bool-cases (same_speaker last.speaker s)) [
  | inl same ↦
      subst (λ ls. extend s b (line ∷ ls) ≡ line ∷ extend s b ls) (sym (if_true _ _ same)) refl
  | inr turn ↦
      subst (λ ls. extend s b (line ∷ ls) ≡ line ∷ extend s b ls) (sym (if_false _ _ turn)) refl
]
extend-behind s a b line (l ∷ next ∷ lines) = refl

-- Two deltas of one speaker extend as their concatenation does.
extend-append :
    (s : Speaker) (a b : Text) (lines : Transcript)
    → extend s b (extend s a lines) ≡ extend s (a ++ b) lines
unfolding extend
extend-append s a b [] = if_true _ _ (same_self s)
extend-append s a b (last ∷ []) = elim (Bool-cases (same_speaker last.speaker s)) [
  | inl same ↦
      ap (extend s b) (if_true _ _ same)
      ∙ if_true _ _ same
      ∙ ap (λ t. record last { text = t } ∷ []) (append_assoc last.text a b)
      ∙ sym (if_true _ _ same)
  | inr turn ↦
      ap (extend s b) (if_false _ _ turn)
      ∙ ap (λ ls. last ∷ ls) (if_true _ _ (same_self s))
      ∙ sym (if_false _ _ turn)
]
extend-append s a b (line ∷ next ∷ lines) =
    extend-behind s a b line (next ∷ lines)
    ∙ ap (λ ls. line ∷ ls) (extend-append s a b (next ∷ lines))

-- Two deltas of one speaker, one after the other, leave the transcript that their concatenation
-- leaves, empty ones included.
pub push-append :
    (s : Speaker) (a b : Text) (lines : Transcript)
    → push s b (push s a lines) ≡ push s (a ++ b) lines
unfolding push
push-append s [] b lines = refl
push-append s (c ∷ a) [] lines = ap (λ t. extend s t lines) (sym (append-nil (c ∷ a)))
push-append s (c ∷ a) (d ∷ b) lines = extend-append s (c ∷ a) (d ∷ b) lines

-- A delta: its speaker and its text.
abbrev pub run : List (Speaker × Text) → Transcript → Transcript
run [] lines = lines
run (d ∷ ds) lines = run ds (push d.0 d.1 lines)

-- The code points of the deltas, each with its speaker.
abbrev pub spoken : List (Speaker × Text) → List (Speaker × ℕ)
spoken [] = []
spoken (d ∷ ds) = map (λ c. (d.0, c)) d.1 ++ spoken ds

-- The transcript of single code points.
run_points : List (Speaker × ℕ) → Transcript → Transcript
run_points [] lines = lines
run_points (p ∷ ps) lines = run_points ps (push p.0 (p.1 ∷ []) lines)

run_points-delta :
    (s : Speaker) (text : Text) (ps : List (Speaker × ℕ)) (lines : Transcript)
    → run_points (map (λ c. (s, c)) text ++ ps) lines ≡ run_points ps (push s text lines)
unfolding run_points push
run_points-delta s [] ps lines = refl
run_points-delta s (c ∷ text) ps lines =
    run_points-delta s text ps (push s (c ∷ []) lines)
    ∙ ap (run_points ps) (push-append s (c ∷ []) text lines)

run-points :
    (ds : List (Speaker × Text)) (lines : Transcript) → run ds lines ≡ run_points (spoken ds) lines
unfolding run_points
run-points [] lines = refl
run-points (d ∷ ds) lines =
    run-points ds (push d.0 d.1 lines) ∙ sym (run_points-delta d.0 d.1 (spoken ds) lines)

-- Two runs of deltas that say the same, code point by code point with its speaker, leave the same
-- transcript, however each cuts it into deltas.
pub run-spoken :
    (ds es : List (Speaker × Text)) (lines : Transcript)
    → spoken ds ≡ spoken es
    → run ds lines ≡ run es lines
run-spoken ds es lines h =
    run-points ds lines ∙ ap (λ ps. run_points ps lines) h ∙ sym (run-points es lines)
