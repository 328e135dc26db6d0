-- ===== src/Strategy/Mute.antt =====
-- flowcat-core/src/audio/strategy.rs: the strategies that decide whether the user is muted.
pub mod InFlight
pub mod FirstSpeech
mod Tests
use flowcat.Base.{Bool, true, false, not, ◌&&◌, ◌||◌, List, [], ◌∷◌, if◌then◌else◌, any, keep_if}
use flowcat.Base.Text.{Text, text_eq, is_empty}
use flowcat.Frame.{
  Frame, FunctionCall, bot_started_speaking, bot_stopped_speaking, function_calls_started,
  function_call_result, function_call_cancel,
}

-- `AlwaysMute::on_frame`
unfoldable pub always_mute : Frame → Bool
always_mute _ = true

pub record MuteUntilFirstBotComplete : Type 0 where
  pub first_speech_handled : Bool

unfoldable pub until_muted : MuteUntilFirstBotComplete → Bool
until_muted s = not s.first_speech_handled

-- `MuteUntilFirstBotComplete::on_frame`; what it returns is `until_muted` of the result.
unfoldable pub until_on_frame : Frame → MuteUntilFirstBotComplete → MuteUntilFirstBotComplete
until_on_frame bot_stopped_speaking s = record { first_speech_handled = true }
until_on_frame _ s = s

pub record FirstSpeechMute : Type 0 where
  pub bot_speaking : Bool
  pub first_speech_handled : Bool

unfoldable pub first_muted : FirstSpeechMute → Bool
first_muted s = s.bot_speaking && not s.first_speech_handled

-- `FirstSpeechMute::on_frame`; what it returns is `first_muted` of the result.
unfoldable pub first_on_frame : Frame → FirstSpeechMute → FirstSpeechMute
first_on_frame bot_started_speaking s = record s { bot_speaking = true }
first_on_frame bot_stopped_speaking s = record { bot_speaking = false; first_speech_handled = true }
first_on_frame _ s = s

-- `FunctionCallMute`, the set of the calls in progress.
abbrev pub FunctionCallMute : Type 0
FunctionCallMute = List Text

abbrev pub is_in : Text → List Text → Bool
is_in id ids = any (λ x. text_eq x id) ids

-- `in_progress.insert(id)`
unfoldable pub insert_id : Text → List Text → List Text
insert_id id ids = if is_in id ids then ids else id ∷ ids

-- `in_progress.remove(id)`
unfoldable pub remove_id : Text → List Text → List Text
remove_id id ids = keep_if (λ x. not (text_eq x id)) ids

-- The loop over the calls of a batch.
unfoldable pub insert_calls : List FunctionCall → FunctionCallMute → FunctionCallMute
unfolding insert_id
insert_calls [] s = s
insert_calls (call ∷ calls) s = insert_calls calls (insert_id call.tool_call_id s)

unfoldable pub calls_muted : FunctionCallMute → Bool
calls_muted s = not (is_empty s)

-- `FunctionCallMute::on_frame`; what it returns is `calls_muted` of the result.
unfoldable pub calls_on_frame : Frame → FunctionCallMute → FunctionCallMute
unfolding insert_calls remove_id
calls_on_frame (function_calls_started calls) s = insert_calls calls s
calls_on_frame (function_call_result r) s = remove_id r.tool_call_id s
calls_on_frame (function_call_cancel _ tool_call_id) s = remove_id tool_call_id s
calls_on_frame _ s = s
