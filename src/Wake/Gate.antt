-- ===== src/Wake/Gate.antt =====
-- The gate is closed until a phrase is heard, and open as long as the user goes on.
use flowcat.Base.{
  ℕ, ◌-◌, ◌<◌, ◌≡◌, refl, sym, ap, subst, ◌∙◌, Bool, List, [], ◌∷◌, ◌++◌, Option, none,
  Option-cases, inl, inr, if_true, lt→ltb, map, Outcome, ok, ◌>>=◌,
}
use flowcat.Base.Text.{Text, text_eq_self}
use flowcat.Frame.{Direction, transcription}
use flowcat.Runtime.{Envelope, FrameMeta}
use flowcat.Wake.{
  idle, awake, WakeCheckFilter, ParticipantState, participant, put_participant, joined, match_wake,
  split_words, wake_at, listen, settle, gate, on_frame, process_frame,
}
use flowcat.Wake.Phrases.{IsHeard, match_wake-IsHeard}
use flowcat.Wake.Users.{participant-put}

-- A transcription, and the time at which it comes.
pub record Said : Type 0 where
  pub now : ℕ
  pub words : Text
  pub meta : FrameMeta
  pub language : Option Text
  pub final : Bool
  pub direction : Direction

abbrev pub says : Text → Said → Envelope
says user s = record {
  meta = s.meta;
  frame = transcription s.words user s.language s.final;
  direction = s.direction;
}

module _ (to_lowercase : Text → Text) where
  -- The transcriptions of a user, one after another.
  abbrev pub talk :
      Text → List Said → WakeCheckFilter → Outcome (Unit {0}) (List Envelope × WakeCheckFilter)
  talk user [] f = ok ([], f)
  talk user (s ∷ said) f = do
    first ← process_frame to_lowercase s.now (says user s) f
    rest ← talk user said first.1
    ok (first.0 ++ rest.0, rest.1)

  -- After no fragment does a phrase stand, as whole words one after another, in what the user has said so far.
  abbrev pub IsUnheard : List (List Text) → Text → List Said → Type 0
  IsUnheard phrases accumulator [] = Unit
  IsUnheard phrases accumulator (s ∷ said) =
      (IsHeard phrases (split_words [] (to_lowercase (joined accumulator s.words))) → ⊥)
      × IsUnheard phrases (joined accumulator s.words) said

  -- Then nothing wakes.
  match_wake-none :
      (phrases : List (List Text)) (text : Text)
      → (IsHeard phrases (split_words [] (to_lowercase text)) → ⊥)
      → match_wake to_lowercase phrases text ≡ none
  match_wake-none phrases text unheard =
      elim (Option-cases (match_wake to_lowercase phrases text)) [
        | inl silent ↦ silent
        | inr (at, wakes) ↦
            absurd (unheard ((match_wake-IsHeard to_lowercase phrases text).0 (at, wakes)))
      ]

  abbrev pub closed : Text → ParticipantState → ParticipantState
  closed accumulator p = record p { state = idle; accumulator = accumulator }

  abbrev pub with_participant : Text → ParticipantState → WakeCheckFilter → WakeCheckFilter
  with_participant user p f = record f { participants = put_participant user p f.participants }

  put-participant :
      (user : Text) (p : ParticipantState) (f : WakeCheckFilter)
      → participant user (with_participant user p f).participants ≡ p
  put-participant user p f =
      participant-put user user p f.participants ∙ if_true _ _ (text_eq_self user)

  process-unheard :
      (user : Text) (s : Said) (f : WakeCheckFilter)
      → (participant user f.participants).state ≡ idle
      → match_wake to_lowercase f.wake_phrases
          (joined (participant user f.participants).accumulator s.words)
        ≡ none
      → process_frame to_lowercase s.now (says user s) f
        ≡ ok (
          [],
          with_participant user
              (closed
                (joined (participant user f.participants).accumulator s.words)
                (participant user f.participants))
              f,
        )
  unfolding process_frame on_frame gate listen wake_at
  process-unheard user s f i h =
      let p = participant user f.participants in
      let accumulator = joined p.accumulator s.words in
      let settled =
        settle to_lowercase (λ text. transcription text user s.language s.final) user (says user s)
          f in
      ap (λ state. settled (gate to_lowercase state f.wake_phrases f.keepalive s.now s.words p)) i
      ∙ ap (λ at. settled (wake_at to_lowercase s.now at (closed accumulator p))) h

  -- From a user whose gate is closed, transcriptions are all withheld, without a panic, where in the lower-case text
  -- of what the user has said so far no wake phrase ever stands as whole words one after another.
  pub talk-unheard :
      (user : Text) (said : List Said) (f : WakeCheckFilter)
      → (participant user f.participants).state ≡ idle
      → IsUnheard f.wake_phrases (participant user f.participants).accumulator said
      → (g : WakeCheckFilter) × (talk user said f ≡ ok ([], g))
  talk-unheard user [] f i h = (f, refl)
  talk-unheard user (s ∷ said) f i h =
      let p = participant user f.participants in
      let q = closed (joined p.accumulator s.words) p in
      let g = with_participant user q f in
      let at = put-participant user q f in
      let rest =
        talk-unheard user said g (ap (λ x. x.state) at)
          (subst (λ x. IsUnheard f.wake_phrases x.accumulator said) (sym at) h.1) in
      (
        rest.0,
        ap (λ m. m >>= λ first. talk user said first.1 >>= λ rest. ok (first.0 ++ rest.0, rest.1))
              (process-unheard user s f i
                (match_wake-none f.wake_phrases (joined p.accumulator s.words) h.0))
            ∙ ap (λ m. m >>= λ rest. ok (rest.0, rest.1)) rest.1,
      )

  -- Each transcription comes less than the window after the one before.
  abbrev pub IsPrompt : ℕ → ℕ → List Said → Type 0
  IsPrompt keepalive timer [] = Unit
  IsPrompt keepalive timer (s ∷ said) = (s.now - timer < keepalive) × IsPrompt keepalive s.now said

  process-awake :
      (user : Text) (s : Said) (f : WakeCheckFilter)
      → (participant user f.participants).state ≡ awake
      → s.now - (participant user f.participants).wake_timer < f.keepalive
      → process_frame to_lowercase s.now (says user s) f
        ≡ ok (
          says user s ∷ [],
          with_participant user
              (record (participant user f.participants) { state = awake; wake_timer = s.now })
              f,
        )
  unfolding process_frame on_frame gate
  process-awake user s f i h =
      let p = participant user f.participants in
      let settled =
        settle to_lowercase (λ text. transcription text user s.language s.final) user (says user s)
          f in
      ap (λ state. settled (gate to_lowercase state f.wake_phrases f.keepalive s.now s.words p)) i
      ∙ ap settled (if_true _ _ (lt→ltb (s.now - p.wake_timer) f.keepalive h))

  -- From a user whose gate is open, transcriptions that come
  -- each less than the keepalive window after the one before, the first after the last time the
  -- gate was passed, all pass, unchanged and without a panic.
  pub talk-prompt :
      (user : Text) (said : List Said) (f : WakeCheckFilter)
      → (participant user f.participants).state ≡ awake
      → IsPrompt f.keepalive (participant user f.participants).wake_timer said
      → (g : WakeCheckFilter) × (talk user said f ≡ ok (map (says user) said, g))
  talk-prompt user [] f i h = (f, refl)
  talk-prompt user (s ∷ said) f i h =
      let p = participant user f.participants in
      let q = record p { state = awake; wake_timer = s.now } in
      let g = with_participant user q f in
      let at = put-participant user q f in
      let rest =
        talk-prompt user said g (ap (λ x. x.state) at)
          (subst (λ x. IsPrompt f.keepalive x.wake_timer said) (sym at) h.1) in
      (
        rest.0,
        ap (λ m. m >>= λ first. talk user said first.1 >>= λ rest. ok (first.0 ++ rest.0, rest.1))
              (process-awake user s f i h.0)
            ∙ ap (λ m. m >>= λ rest. ok (says user s ∷ rest.0, rest.1)) rest.1,
      )
