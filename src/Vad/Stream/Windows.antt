-- ===== src/Vad/Stream/Windows.antt =====
-- `VadProcessor` sees the same windows however the audio is cut into frames.
use mathlib.Core.List.{append_assoc}
use flowcat.Base.{
  ℕ, zero, suc, ◌+◌, ◌-◌, ◌≤◌, ◌<◌, ◌≡◌, refl, sym, ap, subst, inl, inr, ◌∙◌, List, [], ◌∷◌, ◌++◌,
  length, take, drop, leb, arith, Bool-cases, length-append, length-drop, if_true, if_false, le→leb,
  lt→leb, leb→le, leb→lt,
}
use flowcat.Base.Int.{ℤ}
use flowcat.Vad.{Rounding}
use flowcat.Vad.Stream.{VadAnalyzer, VadProcessor, Effect, take_window, drain_windows, hear_audio}

take-append : {A : Type 0} (n : ℕ) (xs ys : List A) → n ≤ length xs → take n (xs ++ ys) ≡ take n xs
take-append zero xs ys h = refl
take-append (suc n) [] ys h = absurd (omega arith)
take-append (suc n) (x ∷ xs) ys h = ap (λ t. x ∷ t) (take-append n xs ys (omega arith))

drop-append :
    {A : Type 0} (n : ℕ) (xs ys : List A) → n ≤ length xs → drop n (xs ++ ys) ≡ drop n xs ++ ys
drop-append zero xs ys h = refl
drop-append (suc n) [] ys h = absurd (omega arith)
drop-append (suc n) (x ∷ xs) ys h = drop-append n xs ys (omega arith)

module _ {A : Type 0} (r : Rounding) (an : VadAnalyzer A) where
  abbrev feed : List ℤ → VadProcessor A → VadProcessor A
  feed pcm p = record p { buffer = p.buffer ++ pcm }

  abbrev pub turn : VadProcessor A → List Effect × VadProcessor A
  turn p =
      take_window r an (take p.window_samples p.buffer)
        (record p { buffer = drop p.window_samples p.buffer })

  turn-feed :
      (p : VadProcessor A) (pcm : List ℤ)
      → p.window_samples ≤ length p.buffer
      → turn (feed pcm p) ≡ ((turn p).0, feed pcm (turn p).1)
  unfolding take_window
  turn-feed p pcm h =
      rw (take-append p.window_samples p.buffer pcm h, drop-append p.window_samples p.buffer pcm h)

  pub drain-go :
      (fuel : ℕ) (p : VadProcessor A)
      → p.window_samples ≤ length p.buffer
      → drain_windows r an (suc fuel) p ≡ (
        (turn p).0 ++ (drain_windows r an fuel (turn p).1).0,
        (drain_windows r an fuel (turn p).1).1,
      )
  unfolding drain_windows
  drain-go fuel p h = if_true _ _ (le→leb p.window_samples (length p.buffer) h)

  pub drain-none : (p : VadProcessor A) → drain_windows r an zero p ≡ ([], p)
  unfolding drain_windows
  drain-none p = refl

  pub drain-rest :
      (fuel : ℕ) (p : VadProcessor A)
      → length p.buffer < p.window_samples
      → drain_windows r an fuel p ≡ ([], p)
  unfolding drain_windows
  drain-rest zero p h = refl
  drain-rest (suc fuel) p h = if_false _ _ (lt→leb p.window_samples (length p.buffer) h)

  length-turn : (p : VadProcessor A) → length (turn p).1.buffer ≡ length p.buffer - p.window_samples
  unfolding take_window
  length-turn p = length-drop p.window_samples p.buffer

  window-turn : (p : VadProcessor A) → (turn p).1.window_samples ≡ p.window_samples
  unfolding take_window
  window-turn p = refl

  -- A turn and then a drain, as one result.
  abbrev after : List Effect → List Effect × VadProcessor A → List Effect × VadProcessor A
  after effects d = (effects ++ d.0, d.1)

  -- A drain that has come to its end.
  abbrev pub IsDone : ℕ → List Effect × VadProcessor A → Type 0
  IsDone window d = (length d.1.buffer < window) × (d.1.window_samples ≡ window)

  drain_rest-IsDone :
      (fuel : ℕ) (p : VadProcessor A)
      → length p.buffer < p.window_samples
      → IsDone p.window_samples (drain_windows r an fuel p)
  drain_rest-IsDone fuel p short =
      subst (IsDone p.window_samples) (sym (drain-rest fuel p short)) (short, refl)

  drain-same_rest :
      (fuel more : ℕ) (p : VadProcessor A)
      → length p.buffer < p.window_samples
      → drain_windows r an more p ≡ drain_windows r an fuel p
  drain-same_rest fuel more p short = drain-rest more p short ∙ sym (drain-rest fuel p short)

  -- With windows of at least one sample, the length of the buffer is fuel enough: less than a
  -- window is left.
  pub drain-IsDone :
      (fuel : ℕ) (p : VadProcessor A)
      → 0 < p.window_samples
      → length p.buffer ≤ fuel
      → IsDone p.window_samples (drain_windows r an fuel p)
  drain-IsDone zero p h k = drain_rest-IsDone zero p (omega arith)
  drain-IsDone (suc fuel) p h k = elim (Bool-cases (leb p.window_samples (length p.buffer))) [
    | inl full ↦
        let le = leb→le p.window_samples (length p.buffer) full in
        subst (IsDone p.window_samples) (sym (drain-go fuel p le)) (
          subst (λ w. IsDone w (drain_windows r an fuel (turn p).1)) (window-turn p)
            (drain-IsDone fuel (turn p).1 (omega (arith, window-turn p))
              (omega (arith, length-turn p))))
    | inr short ↦ drain_rest-IsDone (suc fuel) p (leb→lt p.window_samples (length p.buffer) short)
  ]

  pub drain-enough :
      (fuel more : ℕ) (p : VadProcessor A)
      → 0 < p.window_samples
      → length p.buffer ≤ fuel
      → length p.buffer ≤ more
      → drain_windows r an more p ≡ drain_windows r an fuel p
  drain-enough zero more p h k l = drain-same_rest zero more p (omega arith)
  drain-enough (suc fuel) zero p h k l = drain-same_rest (suc fuel) zero p (omega arith)
  drain-enough (suc fuel) (suc more) p h k l =
      elim (Bool-cases (leb p.window_samples (length p.buffer))) [
        | inl full ↦
            let le = leb→le p.window_samples (length p.buffer) full in
            drain-go more p le
            ∙ ap (after (turn p).0) (
                drain-enough fuel more (turn p).1 (omega (arith, window-turn p))
                  (omega (arith, length-turn p)) (omega (arith, length-turn p)))
            ∙ sym (drain-go fuel p le)
        | inr short ↦
            drain-same_rest (suc fuel) (suc more) p
              (leb→lt p.window_samples (length p.buffer) short)
      ]

  -- The drain of what is left with more audio behind it.
  abbrev on : ℕ → List ℤ → List Effect × VadProcessor A → List Effect × VadProcessor A
  on more pcm d = after d.0 (drain_windows r an more (feed pcm d.1))

  drain-feed-short :
      (fuel more : ℕ) (p : VadProcessor A) (pcm : List ℤ)
      → length p.buffer < p.window_samples
      → drain_windows r an more (feed pcm p) ≡ on more pcm (drain_windows r an fuel p)
  drain-feed-short fuel more p pcm short = sym (ap (on more pcm) (drain-rest fuel p short))

  -- Behind less than a window, audio needs no more fuel than its own length.
  drain-one_less :
      (more window : ℕ) (d : List Effect × VadProcessor A) (pcm : List ℤ)
      → 0 < window
      → IsDone window d
      → window + length pcm ≤ suc more
      → drain_windows r an more (feed pcm d.1) ≡ drain_windows r an (suc more) (feed pcm d.1)
  drain-one_less more window d pcm h done l =
      let shorter = length-append d.1.buffer pcm in
      sym (
        drain-enough more (suc more) (feed pcm d.1) (omega (arith, done.1))
          (omega (arith, shorter, done.0)) (omega (arith, shorter, done.0)))

  -- The windows at the front are the same, and fuel for a shorter buffer is enough for it.
  drain-feed :
      (fuel more : ℕ) (p : VadProcessor A) (pcm : List ℤ)
      → 0 < p.window_samples
      → length p.buffer ≤ fuel
      → length p.buffer + length pcm ≤ more
      → drain_windows r an more (feed pcm p) ≡ on more pcm (drain_windows r an fuel p)
  drain-feed zero more p pcm h k l = drain-feed-short zero more p pcm (omega arith)
  drain-feed (suc fuel) zero p pcm h k l = drain-feed-short (suc fuel) zero p pcm (omega arith)
  drain-feed (suc fuel) (suc more) p pcm h k l =
      elim (Bool-cases (leb p.window_samples (length p.buffer))) [
        | inl full ↦
            let le = leb→le p.window_samples (length p.buffer) full in
            let first = drain_windows r an fuel (turn p).1 in
            let done =
              subst (λ w. IsDone w first) (window-turn p)
                (drain-IsDone fuel (turn p).1 (omega (arith, window-turn p))
                  (omega (arith, length-turn p))) in
            let le' : p.window_samples ≤ length (feed pcm p).buffer =
              omega (arith, le, length-append p.buffer pcm) in
            drain-go more (feed pcm p) le'
            ∙ ap (λ t. after t.0 (drain_windows r an more t.1)) (turn-feed p pcm le)
            ∙ ap (after (turn p).0) (
                drain-feed fuel more (turn p).1 pcm (omega (arith, window-turn p))
                  (omega (arith, length-turn p)) (omega (arith, length-turn p)))
            ∙ ap (λ d. after (turn p).0 (after first.0 d))
                (drain-one_less more p.window_samples first pcm h done (omega arith))
            ∙ ap (λ es. (es, (drain_windows r an (suc more) (feed pcm first.1)).1))
                (sym (
                  append_assoc (turn p).0 first.0
                    (drain_windows r an (suc more) (feed pcm first.1)).0))
            ∙ ap (on (suc more) pcm) (sym (drain-go fuel p le))
        | inr short ↦
            drain-feed-short (suc fuel) (suc more) p pcm
              (leb→lt p.window_samples (length p.buffer) short)
      ]

  -- With windows of at least one sample, audio that arrives in two frames has the effects and the
  -- result of the same audio in one frame, and less than a window is left in the buffer.
  pub hear_audio-append :
      (p : VadProcessor A) (pcm pcm' : List ℤ)
      → 0 < p.window_samples
      → (hear_audio r an (pcm ++ pcm') p ≡ (
          let first = hear_audio r an pcm p in
          let second = hear_audio r an pcm' first.1 in (first.0 ++ second.0, second.1)))
        × (length (hear_audio r an pcm p).1.buffer < p.window_samples)
  unfolding hear_audio
  hear_audio-append p pcm pcm' h =
      let fuel = length (p.buffer ++ pcm) in
      let first = drain_windows r an fuel (feed pcm p) in
      let done = drain-IsDone fuel (feed pcm p) h (omega arith) in
      let all = (p.buffer ++ pcm) ++ pcm' in
      let more = length all + length (first.1.buffer ++ pcm') in
      let fits = length-append (p.buffer ++ pcm) pcm' in
      (
        ap (λ buf. drain_windows r an (length buf) (record p { buffer = buf }))
              (sym (append_assoc p.buffer pcm pcm'))
            ∙ drain-enough more (length all) (record p { buffer = all }) h (omega arith)
                (omega arith)
            ∙ drain-feed fuel more (feed pcm p) pcm' h (omega arith) (omega (arith, fits))
            ∙ ap (after first.0) (
                drain-enough (length (first.1.buffer ++ pcm')) more (feed pcm' first.1)
                  (omega (arith, done.1)) (omega arith) (omega arith)),
        done.0,
      )
