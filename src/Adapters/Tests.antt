-- ===== src/Adapters/Tests.antt =====
-- flowcat-core/src/service/adapters.rs: a model that says three words, interrupted before the third, and a service
-- that speaks.
use flowcat.Base.{ℕ, ◌≡◌, refl, true, List, [], ◌∷◌, ◌++◌, none}
use flowcat.Base.Text.{codes}
use flowcat.Frame.{
  Frame, LlmContext, metrics, tts_usage, tts_audio, output_audio, llm_text, llm_response_end, mono,
  downstream,
}
use flowcat.Runtime.{Envelope, new_meta}
use flowcat.Runtime.Sends.{made}
use flowcat.Adapters.{answered, ToolLlm, LlmProcessor, TtsService, run_llm_turn, tts_frame}
use flowcat.Adapters.Barge.{frames_of, run_llm_turn-cut}

abbrev said : List (Frame × ℕ)
said = (llm_text (codes "so"), 1) ∷ (llm_text (codes "it"), 1) ∷ []

abbrev talker : ToolLlm ℕ ℕ
talker = record {
  run_llm = λ ctx n. (answered (said ++ (llm_text (codes "is"), 2) ∷ []), n);
  set_tools = λ tools n. n;
  from_value = λ v. none;
}

abbrev flagged : LlmProcessor ℕ
flagged = record { svc = 0; has_flag = true }

abbrev empty_context : LlmContext
empty_context = record { messages = []; tools = [] }

run_llm_turn-cut_example :
    made (run_llm_turn talker (codes "Llm") 1 empty_context flagged).0
    ≡ frames_of said ++ llm_response_end ∷ []
run_llm_turn-cut_example =
    run_llm_turn-cut talker (codes "Llm") 1 empty_context flagged 0 said [] (llm_text (codes "is"))
      2 refl refl (refl, (refl, tt)) refl

abbrev speaker : TtsService ℕ
speaker = record { run_tts = λ t n. (answered (tts_audio (mono [] 24000) none ∷ []), n) }

abbrev hello : Envelope
hello = record {
  meta = new_meta 1 (llm_text (codes "hi"));
  frame = llm_text (codes "hi");
  direction = downstream;
}

plays_output :
    made (tts_frame speaker (codes "Tts") hello 0).0
    ≡ metrics (tts_usage (codes "tts") 2 ∷ []) ∷ output_audio (mono [] 24000) ∷ []
unfolding tts_frame
plays_output = refl
