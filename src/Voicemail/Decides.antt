-- ===== src/Voicemail/Decides.antt =====
-- flowcat-core/src/agent/voicemail.rs: the detector decides once, by the end of the first turn.
use flowcat.Base.{
  ℕ, ◌≡◌, refl, sym, ap, subst, ◌∙◌, ◌⊎◌, inl, inr, Bool, true, false, ◌&&◌, List, [], ◌∷◌, ◌++◌,
  Option, none, some, leb, arith, any, Bool-cases, if_true, if_false,
}
use mathlib.Core.List.{append-nil, append_assoc}
use mathlib.Core.Bool.{true≢false}
use flowcat.Base.Text.{Text, word_count}
use flowcat.Frame.{
  F32, Frame, transcription, interim_transcription, vad_user_started_speaking,
  vad_user_stopped_speaking, Classification, DecisionReason, conversation, voicemail,
  long_first_turn, human_response,
}
use flowcat.Runtime.{Envelope}
use flowcat.Runtime.Sends.{Send, made, passed, made-append, passed-run, run}
use flowcat.Voicemail.{
  VoicemailDetector, VoicemailParams, new, decision_frame, decide, on_words, on_stopped, look,
  announced, process_frame, add_words, judge_words, is_long, stop_verdict,
}

-- What the detector has made so far: nothing while it is in its first turn and has not decided, and one decision once it has.
abbrev pub HasDecided : VoicemailDetector → List Frame → Type 0
HasDecided d frames =
    ((d.decided ≡ false) × ((d.first_turn ≡ true) × (frames ≡ [])))
    ⊎ ((d.decided ≡ true)
        × ((c : Classification) × ((r : DecisionReason) × (frames ≡ decision_frame c r ∷ []))))

abbrev Decides : Option Frame × VoicemailDetector → Type 0
Decides r = HasDecided r.1 (made (announced r.0))

-- A decision was made.
abbrev Settles : Option Frame × VoicemailDetector → Type 0
Settles r =
    (r.1.decided ≡ true)
    × ((c : Classification) × ((reason : DecisionReason) × (r.0 ≡ some (decision_frame c reason))))

module _ (d : VoicemailDetector) (open_yet : d.decided ≡ false) (first : d.first_turn ≡ true) where
  judge_words-Decides :
      (o : Option DecisionReason) (words : Text)
      → Decides (judge_words o (record d { transcript = words }))
  unfolding decide
  judge_words-Decides (some reason) words = inr (refl, (voicemail, (reason, refl)))
  judge_words-Decides none words =
      elim (Bool-cases (d.first_turn && leb d.params.long_first_turn_words (word_count words))) [
        | inl long ↦
            subst Decides (sym (if_true _ _ long))
              (inr (refl, (voicemail, (long_first_turn, refl))))
        | inr short ↦ subst Decides (sym (if_false _ _ short)) (inl (open_yet, (first, refl)))
      ]

  module _ (lower : Text → Text) (elapsed : F32 → F32 → ℕ) where
    stop_verdict-Settles : (stop_secs : F32) → Settles (stop_verdict lower elapsed stop_secs d)
    unfolding decide
    stop_verdict-Settles stop_secs = elim (Bool-cases (is_long lower elapsed stop_secs d)) [
      | inl long ↦
          subst Settles (sym (if_true _ _ long)) (refl, (voicemail, (long_first_turn, refl)))
      | inr short ↦
          subst Settles (sym (if_false _ _ short ∙ if_true _ _ first))
            (refl, (conversation, (human_response, refl)))
    ]

    -- The end of the first turn decides.
    on_stopped-Settles : (stop_secs : F32) → Settles (on_stopped lower elapsed stop_secs d)
    unfolding on_stopped
    on_stopped-Settles stop_secs = stop_verdict-Settles stop_secs

    look-Decides : (f : Frame) → Decides (look lower elapsed f d)
    unfolding on_words
    look-Decides (transcription words _ _ _) = judge_words-Decides _ (add_words d.transcript words)
    look-Decides (interim_transcription words _ _) =
        judge_words-Decides _ (add_words d.transcript words)
    look-Decides (vad_user_started_speaking start_secs) = started d.turn_started_secs
      where
        started :
            (o : Option F32)
            → Decides (elim o [
              | none ↦ (none, record d { turn_started_secs = some start_secs })
              | some _ ↦ (none, d)
            ])
        started none = inl (open_yet, (first, refl))
        started (some _) = inl (open_yet, (first, refl))
    look-Decides (vad_user_stopped_speaking stop_secs) =
        let r = on_stopped-Settles stop_secs in
        inr (r.0, (r.1.0, (r.1.1.0, ap (λ o. made (announced o)) r.1.1.1)))
    look-Decides _ = inl (open_yet, (first, refl))

module _ (lower : Text → Text) (elapsed : F32 → F32 → ℕ) where
  abbrev Tells : List Frame → List Send × VoicemailDetector → Type 0
  Tells frames r = HasDecided r.1 (frames ++ made r.0)

  process_frame-Tells :
      (env : Envelope) (d : VoicemailDetector) (frames : List Frame)
      → HasDecided d frames
      → Tells frames (process_frame lower elapsed env d)
  unfolding process_frame
  process_frame-Tells env d frames (inl (open_yet, (first, none_yet))) =
      let seen = look lower elapsed env.frame d in
      subst (Tells frames) (sym (if_false _ _ open_yet)) (
        subst (λ fs. HasDecided seen.1 (fs ++ made (announced seen.0))) (sym none_yet)
          (look-Decides d open_yet first lower elapsed env.frame))
  process_frame-Tells env d frames (inr (done, verdict)) =
      subst (Tells frames) (sym (if_true _ _ done))
        (subst (HasDecided d) (sym (append-nil frames)) (inr (done, verdict)))

  run-Tells :
      (envs : List Envelope) (d : VoicemailDetector) (frames : List Frame)
      → HasDecided d frames
      → Tells frames (run (process_frame lower elapsed) envs d)
  run-Tells [] d frames told = subst (HasDecided d) (sym (append-nil frames)) told
  run-Tells (env ∷ envs) d frames told =
      let now = process_frame lower elapsed env d in
      let rest = run (process_frame lower elapsed) envs now.1 in
      subst (HasDecided rest.1)
        (append_assoc frames (made now.0) (made rest.0)
          ∙ ap (λ fs. frames ++ fs) (sym (made-append now.0 rest.0)))
        (run-Tells envs now.1 (frames ++ made now.0) (process_frame-Tells env d frames told))

  announced-passed : (o : Option Frame) → passed (announced o) ≡ []
  announced-passed none = refl
  announced-passed (some f) = refl

  process_frame-passed :
      (env : Envelope) (d : VoicemailDetector)
      → passed (process_frame lower elapsed env d).0 ≡ env ∷ []
  unfolding process_frame
  process_frame-passed env d = ground (arith, announced-passed (look lower elapsed env.frame d).0)

  -- Whether some frame tells that the user has stopped.
  abbrev pub is_stop : Frame → Bool
  is_stop (vad_user_stopped_speaking _) = true
  is_stop _ = false

  run-decided :
      (envs : List Envelope) (d : VoicemailDetector)
      → d.decided ≡ true
      → (run (process_frame lower elapsed) envs d).1.decided ≡ true
  unfolding process_frame
  run-decided [] d h = h
  run-decided (env ∷ envs) d h =
      run-decided envs (process_frame lower elapsed env d).1 (ground arith)

  stop-decided :
      (f : Frame) (d : VoicemailDetector)
      → d.decided ≡ false
      → d.first_turn ≡ true
      → is_stop f ≡ true
      → (look lower elapsed f d).1.decided ≡ true
  stop-decided (vad_user_stopped_speaking secs) d open_yet first h =
      (on_stopped-Settles d open_yet first lower elapsed secs).0
  stop-decided _ d open_yet first h = ground arith

  run-stops :
      (envs : List Envelope) (d : VoicemailDetector) (frames : List Frame)
      → HasDecided d frames
      → any (λ env. is_stop env.frame) envs ≡ true
      → (run (process_frame lower elapsed) envs d).1.decided ≡ true
  unfolding process_frame
  run-stops [] d frames told h = ground arith
  run-stops (env ∷ envs) d frames (inr (done, verdict)) h = run-decided (env ∷ envs) d done
  run-stops (env ∷ envs) d frames (inl (open_yet, (first, none_yet))) h =
      elim (Bool-cases (is_stop env.frame)) [
        | inl stops ↦ run-decided envs (process_frame lower elapsed env d).1 (
            ap (λ (r : List Send × VoicemailDetector). r.1.decided) (if_false _ _ open_yet)
            ∙ stop-decided env.frame d open_yet first stops)
        | inr goes_on ↦
            run-stops envs (process_frame lower elapsed env d).1
              (frames ++ made (process_frame lower elapsed env d).0)
              (process_frame-Tells env d frames (inl (open_yet, (first, none_yet)))) (ground arith)
      ]

  -- Over any run from the start in which the user is heard to stop speaking, the detector passes on every frame that arrives, in order,
  -- and makes one frame of its own, a decision.
  pub run-decides :
      (envs : List Envelope) (params : VoicemailParams)
      → any (λ env. is_stop env.frame) envs ≡ true
      → (passed (run (process_frame lower elapsed) envs (new params)).0 ≡ envs)
        × ((c : Classification) × ((r : DecisionReason) × (made
                  (run (process_frame lower elapsed) envs (new params)).0
                ≡ decision_frame c r ∷ [])))
  unfolding new
  run-decides envs params h =
      let told = run-Tells envs (new params) [] (inl (refl, (refl, refl))) in
      let stopped = run-stops envs (new params) [] (inl (refl, (refl, refl))) h in
      (
        passed-run (process_frame lower elapsed) process_frame-passed envs (new params),
        elim told [
          | inl undecided ↦ absurd (true≢false (sym stopped ∙ undecided.0))
          | inr settled ↦ settled.1
        ],
      )
