-- ===== src/Ivr/Told.antt =====
-- flowcat-core/src/agent/ivr.rs: what a navigator has done over a run.
use flowcat.Base.{
  ℕ, zero, suc, ◌+◌, ◌≤◌, ◌<◌, ◌≡◌, refl, sym, ap, subst, ◌∙◌, ◌⊎◌, inl, inr, true, false, ◌&&◌,
  List, [], ◌∷◌, ◌++◌, Option, none, some, ltb, leb, length, get_elem?, take, arith, Bool-cases,
  some≢none, some-injective, leb→le, if_true, if_false,
}
use mathlib.Core.List.{append_assoc, append-nil}
use flowcat.Base.Values.{filter_map}
use flowcat.Base.Text.{Text}
use flowcat.Frame.{Frame, transcription, completed, stuck}
use flowcat.Runtime.{Envelope}
use flowcat.Runtime.Sends.{Send, push_down, made, passed, made-append, run, passed-run}
use flowcat.Ivr.{
  IvrStep, IvrNavigator, Script, action_frame, status_frame, acted, take_step, miss, try_step,
  hear_prompt, process_frame, on_frame, matches, new,
}

-- The frames that the first steps of a script make.
abbrev pub actions : ℕ → List IvrStep → List Frame
actions n steps = filter_map (λ s. action_frame s.action) (take n steps)

-- What a navigator has made so far: what the steps before its cursor make, in order, and then its verdict, if it has one.
abbrev pub HasTold : IvrNavigator → List Frame → Type 0
HasTold n frames =
    ((n.finished ≡ false) × (frames ≡ actions n.cursor n.script.steps))
    ⊎ ((n.finished ≡ true)
        × (((length n.script.steps ≤ n.cursor)
              × (frames ≡ actions n.cursor n.script.steps ++ status_frame completed ∷ []))
            ⊎ ((0 < n.script.stuck_after)
                × (frames ≡ actions n.cursor n.script.steps ++ status_frame stuck ∷ []))))

made-acted :
    (o : Option Frame) (rest : List Frame)
    → (elim o [ none ↦ rest | some f ↦ f ∷ rest ]) ≡ made (acted o) ++ rest
made-acted none rest = refl
made-acted (some f) rest = refl

actions-suc :
    (n : ℕ) (steps : List IvrStep) (step : IvrStep)
    → get_elem? steps n ≡ some step
    → actions (suc n) steps ≡ actions n steps ++ made (acted (action_frame step.action))
actions-suc n [] step h = absurd (some≢none (sym h))
actions-suc zero (s ∷ steps) step h =
    made-acted (action_frame s.action) []
    ∙ append-nil (made (acted (action_frame s.action)))
    ∙ ap (λ (x : IvrStep). made (acted (action_frame x.action))) (some-injective h)
actions-suc (suc n) (s ∷ steps) step h =
    further (action_frame s.action) (actions-suc n steps step h)
  where
    further :
        (o : Option Frame)
        → actions (suc n) steps ≡ actions n steps ++ made (acted (action_frame step.action))
        → (elim o [ none ↦ actions (suc n) steps | some f ↦ f ∷ actions (suc n) steps ])
          ≡ (elim o [ none ↦ actions n steps | some f ↦ f ∷ actions n steps ])
            ++ made (acted (action_frame step.action))
    further none ih = ih
    further (some f) ih = ap (λ fs. f ∷ fs) ih

actions-next :
    (n : ℕ) (steps : List IvrStep) (step : IvrStep)
    → get_elem? steps n ≡ some step
    → actions (n + 1) steps ≡ actions n steps ++ made (acted (action_frame step.action))
actions-next n steps step h =
    let e : n + 1 ≡ suc n = omega arith in ap (λ m. actions m steps) e ∙ actions-suc n steps step h

-- What a call leaves to be shown, given what was made before it.
abbrev Tells : List Frame → List Send × IvrNavigator → Type 0
Tells frames r = HasTold r.1 (frames ++ made r.0)

module _ (n : IvrNavigator) (frames : List Frame) (going : n.finished ≡ false)
    (told : frames ≡ actions n.cursor n.script.steps) where
  miss-Tells : Tells frames (miss n)
  unfolding miss
  miss-Tells =
      elim (Bool-cases
        (ltb 0 n.script.stuck_after && leb n.script.stuck_after (n.unmatched_streak + 1))) [
          | inl gives_up ↦
              subst (Tells frames) (sym (if_true _ _ gives_up))
                (inr (refl, inr (ground arith, ap (λ fs. fs ++ status_frame stuck ∷ []) told)))
          | inr goes_on ↦
              subst (Tells frames) (sym (if_false _ _ goes_on))
                (inl (going, append-nil frames ∙ told))
        ]

  take_step-Tells :
      (step : IvrStep)
      → get_elem? n.script.steps n.cursor ≡ some step
      → Tells frames (take_step step n)
  unfolding take_step
  take_step-Tells step at =
      let sent = made (acted (action_frame step.action)) in
      let so_far : frames ++ sent ≡ actions (n.cursor + 1) n.script.steps =
        ap (λ fs. fs ++ sent) told ∙ sym (actions-next n.cursor n.script.steps step at) in
      elim (Bool-cases (leb (length n.script.steps) (n.cursor + 1))) [
        | inl last ↦ subst (Tells frames) (sym (if_true _ _ last)) (
            inr (
              refl,
              inl (
                leb→le _ _ last,
                ap (λ fs. frames ++ fs)
                      (made-append (acted (action_frame step.action))
                        (push_down (status_frame completed) ∷ []))
                    ∙ sym (append_assoc frames sent (status_frame completed ∷ []))
                    ∙ ap (λ fs. fs ++ status_frame completed ∷ []) so_far,
              ),
            ))
        | inr more ↦ subst (Tells frames) (sym (if_false _ _ more)) (inl (going, so_far))
      ]

  try_step-Tells :
      (o : Option IvrStep) (prompt : Text)
      → get_elem? n.script.steps n.cursor ≡ o
      → Tells frames (try_step o prompt n)
  try_step-Tells none prompt at = miss-Tells
  try_step-Tells (some step) prompt at = elim (Bool-cases (matches step prompt)) [
    | inl fires ↦ subst (Tells frames) (sym (if_true _ _ fires)) (take_step-Tells step at)
    | inr silent ↦ subst (Tells frames) (sym (if_false _ _ silent)) miss-Tells
  ]

hear_prompt-Tells :
    (prompt : Text) (n : IvrNavigator) (frames : List Frame)
    → HasTold n frames
    → Tells frames (hear_prompt prompt n)
unfolding hear_prompt
hear_prompt-Tells prompt n frames (inl (going, told)) =
    subst (Tells frames) (sym (if_false _ _ going))
      (try_step-Tells n frames going told (get_elem? n.script.steps n.cursor) prompt refl)
hear_prompt-Tells prompt n frames (inr (done, verdict)) =
    subst (Tells frames) (sym (if_true _ _ done))
      (subst (HasTold n) (sym (append-nil frames)) (inr (done, verdict)))

acted-passed : (o : Option Frame) (sends : List Send) → passed (acted o ++ sends) ≡ passed sends
acted-passed none sends = refl
acted-passed (some f) sends = refl

take_step-passed : (step : IvrStep) (n : IvrNavigator) → passed (take_step step n).0 ≡ []
unfolding take_step
take_step-passed step n = ground (
  arith,
  acted-passed (action_frame step.action) (push_down (status_frame completed) ∷ []),
  acted-passed (action_frame step.action) [],
  append-nil (acted (action_frame step.action)),
)

miss-passed : (n : IvrNavigator) → passed (miss n).0 ≡ []
unfolding miss
miss-passed n = ground arith

try_step-passed :
    (o : Option IvrStep) (prompt : Text) (n : IvrNavigator) → passed (try_step o prompt n).0 ≡ []
try_step-passed none prompt n = miss-passed n
try_step-passed (some step) prompt n = ground (arith, miss-passed n, take_step-passed step n)

hear_prompt-passed : (prompt : Text) (n : IvrNavigator) → passed (hear_prompt prompt n).0 ≡ []
unfolding hear_prompt
hear_prompt-passed prompt n =
    ground (arith, try_step-passed (get_elem? n.script.steps n.cursor) prompt n)

module _ (lower : Text → Text) where
  on_frame-Tells :
      (f : Frame) (env : Envelope) (n : IvrNavigator) (frames : List Frame)
      → HasTold n frames
      → Tells frames (on_frame lower f env n)
  on_frame-Tells (transcription words _ _ _) env n frames told =
      hear_prompt-Tells (lower words) n frames told
  on_frame-Tells _ env n frames told = subst (HasTold n) (sym (append-nil frames)) told

  run-Tells :
      (envs : List Envelope) (n : IvrNavigator) (frames : List Frame)
      → HasTold n frames
      → Tells frames (run (process_frame lower) envs n)
  unfolding process_frame
  run-Tells [] n frames told = subst (HasTold n) (sym (append-nil frames)) told
  run-Tells (env ∷ envs) n frames told =
      let now = process_frame lower env n in
      let rest = run (process_frame lower) envs now.1 in
      subst (HasTold rest.1)
        (append_assoc frames (made now.0) (made rest.0)
          ∙ ap (λ fs. frames ++ fs) (sym (made-append now.0 rest.0)))
        (run-Tells envs now.1 (frames ++ made now.0) (on_frame-Tells env.frame env n frames told))

  on_frame-passed :
      (f : Frame) (env : Envelope) (n : IvrNavigator) → passed (on_frame lower f env n).0 ≡ env ∷ []
  on_frame-passed (transcription words _ _ _) env n =
      ap (λ envs. env ∷ envs) (hear_prompt-passed (lower words) n)
  on_frame-passed _ env n = refl

  process_frame-passed :
      (env : Envelope) (n : IvrNavigator) → passed (process_frame lower env n).0 ≡ env ∷ []
  unfolding process_frame
  process_frame-passed env n = on_frame-passed env.frame env n

  -- Over any run from the start a navigator passes on every frame that arrives, in order, and what it makes itself is what the
  -- steps before its cursor make, in order, and then at most one verdict, exactly when it has finished: that the script is
  -- completed, with the cursor past the last step, or that it is stuck, which only a script with a limit can be.
  pub run-HasTold :
      (envs : List Envelope) (script : Script)
      → (passed (run (process_frame lower) envs (new script)).0 ≡ envs)
        × HasTold
            (run (process_frame lower) envs (new script)).1
            (made (run (process_frame lower) envs (new script)).0)
  unfolding new
  run-HasTold envs script = (
    passed-run (process_frame lower) process_frame-passed envs (new script),
    run-Tells envs (new script) [] (inl (refl, refl)),
  )
