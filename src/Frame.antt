-- ===== src/Frame.antt =====
-- flowcat-core/src/processor/frame.rs: the frames that flow between processors. A float is its bit
-- pattern, and a text the list of its code points.
pub mod Class
use flowcat.Base.{ℕ, Bool, true, false, List, Option, none}
use flowcat.Base.Int.{ℤ}
use flowcat.Base.Text.{Text, codes, Json}

abbrev pub F32 : Type 0
F32 = ℕ

abbrev pub F64 : Type 0
F64 = ℕ

pub data Direction : Type 0 where
  downstream upstream : Direction

unfoldable pub flip : Direction → Direction
flip downstream = upstream
flip upstream = downstream

pub data FrameClass : Type 0 where
  system data_class control : FrameClass

pub record AudioFrame : Type 0 where
  pub pcm : List ℤ
  pub sample_rate : ℕ
  pub num_channels : ℕ

-- `AudioFrame::mono`
abbrev pub mono : List ℤ → ℕ → AudioFrame
mono pcm sample_rate = record { pcm = pcm; sample_rate = sample_rate; num_channels = 1 }

pub record StartParams : Type 0 where
  pub audio_in_sample_rate : ℕ
  pub audio_out_sample_rate : ℕ
  pub enable_metrics : Bool
  pub enable_usage_metrics : Bool
  pub enable_tracing : Bool
  pub report_only_initial_ttfb : Bool

-- `StartParams::default`
abbrev pub default_start : StartParams
default_start = record {
  audio_in_sample_rate = 16000;
  audio_out_sample_rate = 24000;
  enable_metrics = false;
  enable_usage_metrics = false;
  enable_tracing = false;
  report_only_initial_ttfb = true;
}

pub data KeypadEntry : Type 0 where
  key_zero key_one key_two key_three key_four key_five key_six key_seven : KeypadEntry
  key_eight key_nine key_star key_pound : KeypadEntry

pub data ServiceKind : Type 0 where
  stt tts llm filter mixer every : ServiceKind

pub record VadParams : Type 0 where
  pub confidence : F32
  pub start_secs : F32
  pub stop_secs : F32
  pub min_volume : F32

pub record TurnParams : Type 0 where
  pub stop_secs : F32
  pub pre_speech_ms : F32
  pub max_duration_secs : Option F32

pub record FunctionCall : Type 0 where
  pub function_name : Text
  pub tool_call_id : Text
  pub arguments : Json

pub record FunctionCallResult : Type 0 where
  pub function_name : Text
  pub tool_call_id : Text
  pub result : Json

pub record LlmContext : Type 0 where
  pub messages : List Json
  pub tools : List Json

pub record LlmTokenUsage : Type 0 where
  pub prompt_tokens : ℕ
  pub completion_tokens : ℕ
  pub total_tokens : ℕ
  pub cache_read_input_tokens : Option ℕ
  pub cache_creation_input_tokens : Option ℕ
  pub reasoning_tokens : Option ℕ

-- processor/metrics.rs: the processor's name comes first.
pub data MetricsData : Type 0 where
  ttfb : Text → Option Text → F64 → MetricsData
  processing : Text → Option Text → F64 → MetricsData
  llm_usage : Text → Option Text → LlmTokenUsage → MetricsData
  tts_usage : Text → ℕ → MetricsData
  stt_usage : Text → F64 → MetricsData
  turn_prediction : Text → Bool → F32 → F64 → MetricsData

-- agent/ivr.rs and agent/voicemail.rs: what their two custom frames carry.
pub data IvrStatus : Type 0 where
  completed stuck : IvrStatus

pub data Classification : Type 0 where
  conversation voicemail : Classification

pub data DecisionReason : Type 0 where
  greeting_phrase long_first_turn human_response : DecisionReason

-- types.rs
pub record Usage : Type 0 where
  pub input_tokens : Option ℕ
  pub output_tokens : Option ℕ
  pub total_tokens : Option ℕ
  pub extra : Option Json

pub record ToolDecl : Type 0 where
  pub name : Text
  pub description : Text
  pub params : Json

pub data CustomData : Type 0 where
  ivr_status_changed : IvrStatus → CustomData
  voicemail_decision : Classification → DecisionReason → CustomData
  usage_report : Usage → CustomData
  reprompt : Text → List ToolDecl → CustomData
  foreign : Json → CustomData

-- `dyn CustomFrame`: its three answers, and the value behind `as_any`.
pub record CustomFrame : Type 0 where
  pub frame_class : FrameClass
  pub uninterruptible : Bool
  pub name : Text
  pub as_any : CustomData

-- A variant's fields in the order of the source.
pub data Frame : Type 0 where
  start : StartParams → Frame
  cancel : Option Text → Frame
  error : Text → Bool → Option Text → Frame
  interruption : Frame
  input_audio : AudioFrame → Frame
  user_audio : AudioFrame → Text → Frame
  input_text : Text → Frame
  input_dtmf : KeypadEntry → Frame
  user_started_speaking : Frame
  user_stopped_speaking : Frame
  user_speaking : Frame
  bot_started_speaking : Frame
  bot_stopped_speaking : Frame
  bot_speaking : Frame
  vad_user_started_speaking : F32 → Frame
  vad_user_stopped_speaking : F32 → Frame
  stt_mute : Bool → Frame
  metrics : List MetricsData → Frame
  transport_message : Json → Bool → Frame
  client_connected : Frame
  bot_connected : Frame
  function_calls_started : List FunctionCall → Frame
  function_call_in_progress : FunctionCall → Bool → Frame
  function_call_cancel : Text → Text → Frame
  output_audio : AudioFrame → Frame
  tts_audio : AudioFrame → Option Text → Frame
  text : Text → Frame
  llm_text : Text → Frame
  transcription : Text → Text → Option Text → Bool → Frame
  interim_transcription : Text → Text → Option Text → Frame
  tts_speak : Text → Option Bool → Frame
  tts_text : Text → Option Text → Frame
  function_call_result : FunctionCallResult → Frame
  llm_run : Frame
  llm_context : LlmContext → Frame
  output_dtmf : List KeypadEntry → Frame
  end_of_task : Option Text → Frame
  stop : Frame
  llm_response_start : Frame
  llm_response_end : Frame
  tts_started : Option Text → Frame
  tts_stopped : Option Text → Frame
  update_settings : ServiceKind → Json → Frame
  speech_control_params : Option VadParams → Option TurnParams → Frame
  heartbeat : ℤ → Frame
  output_transport_ready : Frame
  filter_enable : Bool → Frame
  mixer_enable : Bool → Frame
  custom : CustomFrame → Frame

pub data FrameKind : Type 0 where
  k_start k_cancel k_error k_interruption k_input_audio k_user_audio : FrameKind
  k_input_text k_input_dtmf k_user_started_speaking k_user_stopped_speaking : FrameKind
  k_user_speaking k_bot_started_speaking k_bot_stopped_speaking k_bot_speaking : FrameKind
  k_vad_user_started_speaking k_vad_user_stopped_speaking k_stt_mute k_metrics : FrameKind
  k_transport_message k_client_connected k_bot_connected : FrameKind
  k_function_calls_started k_function_call_in_progress k_function_call_cancel : FrameKind
  k_output_audio k_tts_audio k_text k_llm_text k_transcription : FrameKind
  k_interim_transcription k_tts_speak k_tts_text k_function_call_result : FrameKind
  k_llm_run k_llm_context k_output_dtmf k_end k_stop k_llm_response_start : FrameKind
  k_llm_response_end k_tts_started k_tts_stopped k_update_settings : FrameKind
  k_speech_control_params k_heartbeat k_output_transport_ready k_filter_enable : FrameKind
  k_mixer_enable k_custom : FrameKind

-- `Frame::class`
unfoldable pub class : Frame → FrameClass
class (start _) = system
class (cancel _) = system
class (error _ _ _) = system
class interruption = system
class (input_audio _) = system
class (user_audio _ _) = system
class (input_text _) = system
class (input_dtmf _) = system
class user_started_speaking = system
class user_stopped_speaking = system
class user_speaking = system
class bot_started_speaking = system
class bot_stopped_speaking = system
class bot_speaking = system
class (vad_user_started_speaking _) = system
class (vad_user_stopped_speaking _) = system
class (stt_mute _) = system
class (metrics _) = system
class (transport_message _ _) = system
class client_connected = system
class bot_connected = system
class (function_calls_started _) = system
class (function_call_in_progress _ _) = system
class (function_call_cancel _ _) = system
class (output_audio _) = data_class
class (tts_audio _ _) = data_class
class (text _) = data_class
class (llm_text _) = data_class
class (transcription _ _ _ _) = data_class
class (interim_transcription _ _ _) = data_class
class (tts_speak _ _) = data_class
class (tts_text _ _) = data_class
class (function_call_result _) = data_class
class llm_run = data_class
class (llm_context _) = data_class
class (output_dtmf _) = data_class
class (end_of_task _) = control
class stop = control
class llm_response_start = control
class llm_response_end = control
class (tts_started _) = control
class (tts_stopped _) = control
class (update_settings _ _) = control
class (speech_control_params _ _) = control
class (heartbeat _) = control
class output_transport_ready = control
class (filter_enable _) = control
class (mixer_enable _) = control
class (custom c) = c.frame_class

-- `Frame::uninterruptible`
unfoldable pub uninterruptible : Frame → Bool
uninterruptible (end_of_task _) = true
uninterruptible stop = true
uninterruptible (function_call_result _) = true
uninterruptible (update_settings _ _) = true
uninterruptible (custom c) = c.uninterruptible
uninterruptible _ = false

-- `Frame::name`
unfoldable pub name : Frame → Text
name (start _) = codes "Start"
name (cancel _) = codes "Cancel"
name (error _ _ _) = codes "Error"
name interruption = codes "Interruption"
name (input_audio _) = codes "InputAudio"
name (user_audio _ _) = codes "UserAudio"
name (input_text _) = codes "InputText"
name (input_dtmf _) = codes "InputDtmf"
name user_started_speaking = codes "UserStartedSpeaking"
name user_stopped_speaking = codes "UserStoppedSpeaking"
name user_speaking = codes "UserSpeaking"
name bot_started_speaking = codes "BotStartedSpeaking"
name bot_stopped_speaking = codes "BotStoppedSpeaking"
name bot_speaking = codes "BotSpeaking"
name (vad_user_started_speaking _) = codes "VadUserStartedSpeaking"
name (vad_user_stopped_speaking _) = codes "VadUserStoppedSpeaking"
name (stt_mute _) = codes "SttMute"
name (metrics _) = codes "Metrics"
name (transport_message _ _) = codes "TransportMessage"
name client_connected = codes "ClientConnected"
name bot_connected = codes "BotConnected"
name (function_calls_started _) = codes "FunctionCallsStarted"
name (function_call_in_progress _ _) = codes "FunctionCallInProgress"
name (function_call_cancel _ _) = codes "FunctionCallCancel"
name (output_audio _) = codes "OutputAudio"
name (tts_audio _ _) = codes "TtsAudio"
name (text _) = codes "Text"
name (llm_text _) = codes "LlmText"
name (transcription _ _ _ _) = codes "Transcription"
name (interim_transcription _ _ _) = codes "InterimTranscription"
name (tts_speak _ _) = codes "TtsSpeak"
name (tts_text _ _) = codes "TtsText"
name (function_call_result _) = codes "FunctionCallResult"
name llm_run = codes "LlmRun"
name (llm_context _) = codes "LlmContext"
name (output_dtmf _) = codes "OutputDtmf"
name (end_of_task _) = codes "End"
name stop = codes "Stop"
name llm_response_start = codes "LlmResponseStart"
name llm_response_end = codes "LlmResponseEnd"
name (tts_started _) = codes "TtsStarted"
name (tts_stopped _) = codes "TtsStopped"
name (update_settings _ _) = codes "UpdateSettings"
name (speech_control_params _ _) = codes "SpeechControlParams"
name (heartbeat _) = codes "Heartbeat"
name output_transport_ready = codes "OutputTransportReady"
name (filter_enable _) = codes "FilterEnable"
name (mixer_enable _) = codes "MixerEnable"
name (custom c) = c.name

-- `Frame::is_terminal`
unfoldable pub is_terminal : Frame → Bool
is_terminal (end_of_task _) = true
is_terminal stop = true
is_terminal (cancel _) = true
is_terminal _ = false

-- `Frame::kind`
unfoldable pub kind : Frame → FrameKind
kind (start _) = k_start
kind (cancel _) = k_cancel
kind (error _ _ _) = k_error
kind interruption = k_interruption
kind (input_audio _) = k_input_audio
kind (user_audio _ _) = k_user_audio
kind (input_text _) = k_input_text
kind (input_dtmf _) = k_input_dtmf
kind user_started_speaking = k_user_started_speaking
kind user_stopped_speaking = k_user_stopped_speaking
kind user_speaking = k_user_speaking
kind bot_started_speaking = k_bot_started_speaking
kind bot_stopped_speaking = k_bot_stopped_speaking
kind bot_speaking = k_bot_speaking
kind (vad_user_started_speaking _) = k_vad_user_started_speaking
kind (vad_user_stopped_speaking _) = k_vad_user_stopped_speaking
kind (stt_mute _) = k_stt_mute
kind (metrics _) = k_metrics
kind (transport_message _ _) = k_transport_message
kind client_connected = k_client_connected
kind bot_connected = k_bot_connected
kind (function_calls_started _) = k_function_calls_started
kind (function_call_in_progress _ _) = k_function_call_in_progress
kind (function_call_cancel _ _) = k_function_call_cancel
kind (output_audio _) = k_output_audio
kind (tts_audio _ _) = k_tts_audio
kind (text _) = k_text
kind (llm_text _) = k_llm_text
kind (transcription _ _ _ _) = k_transcription
kind (interim_transcription _ _ _) = k_interim_transcription
kind (tts_speak _ _) = k_tts_speak
kind (tts_text _ _) = k_tts_text
kind (function_call_result _) = k_function_call_result
kind llm_run = k_llm_run
kind (llm_context _) = k_llm_context
kind (output_dtmf _) = k_output_dtmf
kind (end_of_task _) = k_end
kind stop = k_stop
kind llm_response_start = k_llm_response_start
kind llm_response_end = k_llm_response_end
kind (tts_started _) = k_tts_started
kind (tts_stopped _) = k_tts_stopped
kind (update_settings _ _) = k_update_settings
kind (speech_control_params _ _) = k_speech_control_params
kind (heartbeat _) = k_heartbeat
kind output_transport_ready = k_output_transport_ready
kind (filter_enable _) = k_filter_enable
kind (mixer_enable _) = k_mixer_enable
kind (custom _) = k_custom
