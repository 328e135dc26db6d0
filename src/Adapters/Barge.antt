-- ===== src/Adapters/Barge.antt =====
-- flowcat-core/src/service/adapters.rs: the stream of the language model under a barge-in.
use flowcat.Base.{
  ℕ, ◌≡◌, refl, ap, ◌∙◌, Bool, true, false, ◌==◌, List, [], ◌∷◌, ◌++◌, map, All, if_true, if_false,
  ==_self,
}
use flowcat.Base.Text.{Text}
use flowcat.Frame.{Frame, LlmContext, llm_response_end}
use flowcat.Runtime.Sends.{push_down, made, made-append}
use flowcat.Adapters.{
  Answer, answered, ToolLlm, LlmProcessor, push_each, forward_stream, close_stream, answer_llm,
  run_llm_turn,
}

abbrev pub frames_of : List (Frame × ℕ) → List Frame
frames_of stream = map (λ (f : Frame × ℕ). f.0) stream

-- The flag stays at a value while the frames arrive.
abbrev pub IsSteady : ℕ → List (Frame × ℕ) → Type 0
IsSteady g stream = All (λ (f : Frame × ℕ). f.1 ≡ g) stream

made-push_each : (frames : List Frame) → made (push_each frames) ≡ frames
made-push_each [] = refl
made-push_each (f ∷ frames) = ap (λ fs. f ∷ fs) (made-push_each frames)

forward_stream-cut :
    (g : ℕ) (before after : List (Frame × ℕ)) (f : Frame) (changed : ℕ)
    → IsSteady g before
    → (changed == g) ≡ false
    → forward_stream true g (before ++ (f, changed) ∷ after) ≡ (frames_of before, true)
unfolding forward_stream
forward_stream-cut g [] after f changed steady change = if_false _ _ change
forward_stream-cut g (b ∷ before) after f changed steady change =
    if_true _ _ (ap (λ k. k == g) steady.0 ∙ ==_self g)
    ∙ ap (λ (r : List Frame × Bool). (b.0 ∷ r.0, r.1))
        (forward_stream-cut g before after f changed steady.1 change)

-- With an interrupt flag, the frames of a stream that arrive before the flag changes are pushed, in order, and then the
-- end of the response: nothing that the model says after the barge-in gets out.
pub run_llm_turn-cut :
    {L T : Type 0}
    → (service : ToolLlm L T) (name : Text) (g : ℕ) (ctx : LlmContext) (p : LlmProcessor L) (s : L)
      (before after : List (Frame × ℕ)) (f : Frame) (changed : ℕ)
    → p.has_flag ≡ true
    → service.run_llm ctx p.svc ≡ (answered (before ++ (f, changed) ∷ after), s)
    → IsSteady g before
    → (changed == g) ≡ false
    → made (run_llm_turn service name g ctx p).0 ≡ frames_of before ++ llm_response_end ∷ []
unfolding run_llm_turn
run_llm_turn-cut service name g ctx p s before after f changed flagged answers steady change =
    ap (λ (b : Bool). made (answer_llm name b g (service.run_llm ctx p.svc).0)) flagged
    ∙ ap (λ (a : Answer (List (Frame × ℕ)) × _). made (answer_llm name true g a.0)) answers
    ∙ ap (λ (r : List Frame × Bool). made (close_stream r))
        (forward_stream-cut g before after f changed steady change)
    ∙ made-append (push_each (frames_of before)) (push_down llm_response_end ∷ [])
    ∙ ap (λ (fs : List Frame). fs ++ llm_response_end ∷ []) (made-push_each (frames_of before))
