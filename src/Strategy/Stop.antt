-- ===== src/Strategy/Stop.antt =====
-- flowcat-core/src/audio/strategy.rs: the strategies that decide when the user has finished a turn.
-- The product of floats that one of them takes is a parameter.
pub mod Patience
mod Tests
use flowcat.Base.{Bool, true, false, not, ◌&&◌, ◌||◌, if◌then◌else◌}
use flowcat.Base.Text.{Text, is_empty}
use flowcat.Frame.{F32, Frame, vad_user_started_speaking, vad_user_stopped_speaking, transcription}
use flowcat.Vad.{ge}

pub data TurnStopDecision : Type 0 where
  triggered waiting : TurnStopDecision

pub record TurnAnalyzerStop : Type 0 where
  pub stt_timeout_ms : F32
  pub vad_user_speaking : Bool
  pub turn_complete : Bool
  pub have_text : Bool
  pub transcript_finalized : Bool
  pub timeout_expired : Bool

unfoldable pub new_analyzer_stop : F32 → TurnAnalyzerStop
new_analyzer_stop stt_timeout_ms = record {
  stt_timeout_ms = stt_timeout_ms;
  vad_user_speaking = false;
  turn_complete = false;
  have_text = false;
  transcript_finalized = false;
  timeout_expired = false;
}

unfoldable pub evaluate_analyzer : TurnAnalyzerStop → TurnStopDecision
evaluate_analyzer s =
    if not s.have_text || (not s.turn_complete || s.vad_user_speaking)
    then waiting
    else if s.transcript_finalized || s.timeout_expired
    then triggered
    else waiting

-- The new state, evaluated.
abbrev evaluated : TurnAnalyzerStop → TurnStopDecision × TurnAnalyzerStop
evaluated s = (evaluate_analyzer s, s)

unfoldable pub set_turn_complete : Bool → TurnAnalyzerStop → TurnStopDecision × TurnAnalyzerStop
unfolding evaluate_analyzer
set_turn_complete complete s = evaluated (record s { turn_complete = complete })

-- `TurnAnalyzerStop::on_frame`
unfoldable pub analyzer_on_frame : Frame → TurnAnalyzerStop → TurnStopDecision × TurnAnalyzerStop
unfolding evaluate_analyzer
analyzer_on_frame (vad_user_started_speaking _) s = (
  waiting,
  record s {
    vad_user_speaking = true;
    turn_complete = false;
    transcript_finalized = false;
    timeout_expired = false;
  },
)
analyzer_on_frame (vad_user_stopped_speaking _) s =
    evaluated (record s { vad_user_speaking = false })
analyzer_on_frame (transcription text _ _ final) s = evaluated (record s {
  have_text = not (is_empty text) || s.have_text;
  transcript_finalized = final || s.transcript_finalized;
})
analyzer_on_frame _ s = (waiting, s)

-- `TurnAnalyzerStop::on_silence_tick`
unfoldable pub analyzer_on_tick : F32 → TurnAnalyzerStop → TurnStopDecision × TurnAnalyzerStop
unfolding evaluate_analyzer ge
analyzer_on_tick elapsed_ms s =
    let expires = not s.vad_user_speaking && ge elapsed_ms s.stt_timeout_ms in
    evaluated (record s { timeout_expired = expires || s.timeout_expired })

-- `TurnAnalyzerStop::reset`
unfoldable pub reset_analyzer_stop : TurnAnalyzerStop → TurnAnalyzerStop
reset_analyzer_stop s = record s {
  vad_user_speaking = false;
  turn_complete = false;
  have_text = false;
  transcript_finalized = false;
  timeout_expired = false;
}

pub record SpeechTimeoutStop : Type 0 where
  pub user_speech_timeout_ms : F32
  pub stt_timeout_ms : F32
  pub vad_user_speaking : Bool
  pub have_text : Bool
  pub transcript_finalized : Bool
  pub user_speech_done : Bool
  pub stt_done : Bool

unfoldable pub new_timeout_stop : F32 → F32 → SpeechTimeoutStop
new_timeout_stop user_speech_timeout_ms stt_timeout_ms = record {
  user_speech_timeout_ms = user_speech_timeout_ms;
  stt_timeout_ms = stt_timeout_ms;
  vad_user_speaking = false;
  have_text = false;
  transcript_finalized = false;
  user_speech_done = false;
  stt_done = false;
}

unfoldable pub evaluate_timeout : SpeechTimeoutStop → TurnStopDecision
evaluate_timeout s =
    if s.vad_user_speaking || not s.have_text
    then waiting
    else if s.user_speech_done && s.stt_done
    then triggered
    else waiting

abbrev timed : SpeechTimeoutStop → TurnStopDecision × SpeechTimeoutStop
timed s = (evaluate_timeout s, s)

-- `SpeechTimeoutStop::on_frame`; `in_ms` is the product of the seconds with 1000.
unfoldable pub timeout_on_frame :
    (F32 → F32) → Frame → SpeechTimeoutStop → TurnStopDecision × SpeechTimeoutStop
unfolding evaluate_timeout ge
timeout_on_frame in_ms (vad_user_started_speaking _) s = (
  waiting,
  record s {
    vad_user_speaking = true;
    transcript_finalized = false;
    user_speech_done = false;
    stt_done = false;
  },
)
timeout_on_frame in_ms (vad_user_stopped_speaking stop_secs) s =
    let covered = s.transcript_finalized || ge (in_ms stop_secs) s.stt_timeout_ms in
    timed (record s { vad_user_speaking = false; stt_done = covered || s.stt_done })
timeout_on_frame in_ms (transcription text _ _ final) s = timed (record s {
  have_text = not (is_empty text) || s.have_text;
  transcript_finalized = final || s.transcript_finalized;
  stt_done = final || s.stt_done;
})
timeout_on_frame in_ms _ s = (waiting, s)

-- `SpeechTimeoutStop::on_silence_tick`
unfoldable pub timeout_on_tick : F32 → SpeechTimeoutStop → TurnStopDecision × SpeechTimeoutStop
unfolding evaluate_timeout ge
timeout_on_tick elapsed_ms s = timed (record s {
  user_speech_done =
      (not s.vad_user_speaking && ge elapsed_ms s.user_speech_timeout_ms) || s.user_speech_done;
  stt_done = (not s.vad_user_speaking && ge elapsed_ms s.stt_timeout_ms) || s.stt_done;
})

-- `SpeechTimeoutStop::reset`
unfoldable pub reset_timeout_stop : SpeechTimeoutStop → SpeechTimeoutStop
reset_timeout_stop s = record s {
  vad_user_speaking = false;
  have_text = false;
  transcript_finalized = false;
  user_speech_done = false;
  stt_done = false;
}
