-- ===== src/Adapters.antt =====
-- flowcat-core/src/service/adapters.rs: the processors around a speech-to-text service, a language model and a
-- text-to-speech service. The services are parameters; the text of an error is theirs, floats of seconds are bit
-- patterns, and a stream yields each frame with the value of the interrupt flag at that time.
pub mod Barge
mod Tests
use flowcat.Base.{
  ℕ, Bool, true, false, not, ◌==◌, List, [], ◌∷◌, ◌++◌, Option, none, some, map, length, leb,
  if◌then◌else◌,
}
use flowcat.Base.Text.{Text, codes, Json, string, object, end, field}
use flowcat.Base.Values.{filter_map, and_then, at_key, as_array}
use flowcat.Frame.{
  Frame, AudioFrame, StartParams, F64, ServiceKind, llm, LlmContext, error, input_audio,
  user_stopped_speaking, stt_mute, metrics, stt_usage, tts_usage, update_settings, transcription,
  llm_context, llm_text, llm_response_end, tts_speak, tts_audio, output_audio, upstream,
}
use flowcat.Runtime.{Envelope}
use flowcat.Runtime.Sends.{Send, pass, make, push_down}

-- `Result`, with the text of the error.
pub data Answer (A : Type 0) : Type 0 where
  answered : A → Answer A
  failed : Text → Answer A

-- `link.push_error(message, false)` of the link of a name.
abbrev pub push_fault : Text → Text → Send
push_fault name message = make (error message false (some name)) upstream

abbrev pub push_each : List Frame → List Send
push_each frames = map push_down frames

-- What a service answers, behind a word for the errors.
abbrev pub push_answer : Text → Text → Answer (List Frame) → List Send
push_answer name words (answered frames) = push_each frames
push_answer name words (failed e) = push_fault name (words ++ e) ∷ []

-- `service::SttService`, with its state.
pub record SttService (S : Type 0) : Type 0 where
  pub run_stt : AudioFrame → S → Answer (List Frame) × S
  pub flush : S → Answer (List Frame) × S
  pub set_muted : Bool → S → S

-- What the code takes from `f64`: `as f64`, `/`, `+=`, and `>= 1.0`.
pub record SecondOps : Type 0 where
  pub of_int : ℕ → F64
  pub div : F64 → F64 → F64
  pub add : F64 → F64 → F64
  pub is_one_or_more : F64 → Bool

pub record SttProcessor (S : Type 0) : Type 0 where
  pub svc : S
  pub pending_audio_seconds : F64

-- `n.max(1)`
abbrev one_or_more : ℕ → ℕ
one_or_more n = if leb n 1 then 1 else n

module _ {S : Type 0} (service : SttService S) (ops : SecondOps) where
  -- `SttProcessor::new`
  unfoldable pub new_stt : S → SttProcessor S
  new_stt svc = record { svc = svc; pending_audio_seconds = 0 }

  abbrev audio_seconds : AudioFrame → F64
  audio_seconds audio =
      ops.div
        (ops.div (ops.of_int (length audio.pcm)) (ops.of_int (one_or_more audio.num_channels)))
        (ops.of_int (one_or_more audio.sample_rate))

  -- Usage is reported a second at a time.
  unfoldable pub count_usage : AudioFrame → SttProcessor S → List Send × SttProcessor S
  count_usage audio p =
      let seconds = ops.add p.pending_audio_seconds (audio_seconds audio) in
      if ops.is_one_or_more seconds
      then (
        push_down (metrics (stt_usage (codes "stt") seconds ∷ [])) ∷ [],
        record p { pending_audio_seconds = 0 },
      )
      else ([], record p { pending_audio_seconds = seconds })

  abbrev hear_stt : Text → AudioFrame → SttProcessor S → List Send × SttProcessor S
  hear_stt name audio p =
      let counted = count_usage audio p in
      let heard = service.run_stt audio counted.1.svc in
      (counted.0 ++ push_answer name (codes "stt: ") heard.0, record counted.1 { svc = heard.1 })

  abbrev flush_stt : Text → Envelope → SttProcessor S → List Send × SttProcessor S
  flush_stt name env p =
      let flushed = service.flush p.svc in
      (
        push_answer name (codes "stt flush: ") flushed.0 ++ pass env ∷ [],
        record p { svc = flushed.1 },
      )

  abbrev on_stt_frame : Text → Frame → Envelope → SttProcessor S → List Send × SttProcessor S
  on_stt_frame name (input_audio audio) env p = hear_stt name audio p
  on_stt_frame name user_stopped_speaking env p = flush_stt name env p
  on_stt_frame name (stt_mute muted) env p =
      (pass env ∷ [], record p { svc = service.set_muted muted p.svc })
  on_stt_frame name _ env p = (pass env ∷ [], p)

  -- `process_frame` of `SttProcessor`, where the link has a name.
  unfoldable pub stt_frame : Text → Envelope → SttProcessor S → List Send × SttProcessor S
  unfolding count_usage
  stt_frame name env p = on_stt_frame name env.frame env p

-- `service::LlmService` with the tools of a type, read from JSON by serde.
pub record ToolLlm (L T : Type 0) : Type 0 where
  pub run_llm : LlmContext → L → Answer (List (Frame × ℕ)) × L
  pub set_tools : List T → L → L
  pub from_value : Json → Option T

pub record LlmProcessor (L : Type 0) : Type 0 where
  pub svc : L
  pub has_flag : Bool

-- The loop over the stream: what is pushed, and whether it is cancelled.
unfoldable pub forward_stream : Bool → ℕ → List (Frame × ℕ) → List Frame × Bool
forward_stream has_flag start_gen [] = ([], false)
forward_stream has_flag start_gen (f ∷ stream) =
    let rest = forward_stream has_flag start_gen stream in
    if has_flag
    then if f.1 == start_gen then (f.0 ∷ rest.0, rest.1) else ([], true)
    else (f.0 ∷ rest.0, rest.1)

abbrev pub close_stream : List Frame × Bool → List Send
close_stream (frames, true) = push_each frames ++ push_down llm_response_end ∷ []
close_stream (frames, false) = push_each frames

abbrev pub answer_llm : Text → Bool → ℕ → Answer (List (Frame × ℕ)) → List Send
answer_llm name has_flag start_gen (answered stream) =
    close_stream (forward_stream has_flag start_gen stream)
answer_llm name has_flag start_gen (failed e) = push_fault name (codes "llm: " ++ e) ∷ []

module _ {L T : Type 0} (service : ToolLlm L T) where
  -- `LlmProcessor::run`, where the flag has a value at the start.
  unfoldable pub run_llm_turn : Text → ℕ → LlmContext → LlmProcessor L → List Send × LlmProcessor L
  unfolding forward_stream
  run_llm_turn name start_gen ctx p =
      let answer = service.run_llm ctx p.svc in
      (answer_llm name p.has_flag start_gen answer.0, record p { svc = answer.1 })

  -- The context of a final transcription by itself.
  abbrev single_turn : Text → LlmContext
  single_turn text = record {
    messages =
        object
          (field (codes "role") (string (codes "user")) (field (codes "content") (string text) end))
        ∷ [];
    tools = [];
  }

  abbrev set_llm_tools : Option (List Json) → LlmProcessor L → LlmProcessor L
  set_llm_tools none p = p
  set_llm_tools (some tools) p = record p {
    svc = service.set_tools (filter_map service.from_value tools) p.svc;
  }

  abbrev on_settings : ServiceKind → Json → LlmProcessor L → LlmProcessor L
  on_settings llm settings p = set_llm_tools (and_then (at_key (codes "tools") settings) as_array) p
  on_settings _ settings p = p

  abbrev on_llm_frame : Text → ℕ → Frame → Envelope → LlmProcessor L → List Send × LlmProcessor L
  on_llm_frame name start_gen (llm_context ctx) env p = run_llm_turn name start_gen ctx p
  on_llm_frame name start_gen (transcription text who lang true) env p =
      run_llm_turn name start_gen (single_turn text) p
  on_llm_frame name start_gen (update_settings target settings) env p =
      (pass env ∷ [], on_settings target settings p)
  on_llm_frame name start_gen _ env p = (pass env ∷ [], p)

  -- `process_frame` of `LlmProcessor`
  unfoldable pub llm_frame : Text → ℕ → Envelope → LlmProcessor L → List Send × LlmProcessor L
  unfolding run_llm_turn
  llm_frame name start_gen env p = on_llm_frame name start_gen env.frame env p

-- `service::TtsService`
pub record TtsService (S : Type 0) : Type 0 where
  pub run_tts : Text → S → Answer (List Frame) × S

abbrev pub as_output : Frame → Frame
as_output (tts_audio audio context) = output_audio audio
as_output f = f

module _ {S : Type 0} (service : TtsService S) where
  abbrev speak : Text → Text → Answer (List Frame) → List Send
  speak name text (answered frames) =
      push_down (metrics (tts_usage (codes "tts") (length text) ∷ []))
      ∷ push_each (map as_output frames)
  speak name text (failed e) = push_fault name (codes "tts: " ++ e) ∷ []

  -- `TtsProcessor::run`
  unfoldable pub run_tts_turn : Text → Text → S → List Send × S
  run_tts_turn name text svc =
      let answer = service.run_tts text svc in (speak name text answer.0, answer.1)

  abbrev on_tts_frame : Text → Frame → Envelope → S → List Send × S
  on_tts_frame name (tts_speak text _) env svc = run_tts_turn name text svc
  on_tts_frame name (llm_text text) env svc = run_tts_turn name text svc
  on_tts_frame name _ env svc = (pass env ∷ [], svc)

  -- `process_frame` of `TtsProcessor`
  unfoldable pub tts_frame : Text → Envelope → S → List Send × S
  unfolding run_tts_turn
  tts_frame name env svc = on_tts_frame name env.frame env svc
