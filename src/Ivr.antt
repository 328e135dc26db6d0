-- ===== src/Ivr.antt =====
-- flowcat-core/src/agent/ivr.rs: the scripted navigator of a telephone menu. `to_lowercase` is a
-- parameter.
pub mod Told
mod Tests
use flowcat.Base.{
  ℕ, ◌+◌, Bool, true, false, ◌&&◌, List, [], ◌∷◌, ◌++◌, Option, none, some, if◌then◌else◌, ltb, leb,
  length, get_elem?, any, map,
}
use flowcat.Base.Text.{Text, codes, contains}
use flowcat.Frame.{
  Frame, transcription, output_dtmf, tts_speak, custom, KeypadEntry, control, completed, stuck,
  IvrStatus, ivr_status_changed, CustomData, CustomFrame, foreign, usage_report, reprompt,
  voicemail_decision,
}
use flowcat.Runtime.{Envelope}
use flowcat.Runtime.Sends.{Send, pass, push_down}

pub data IvrAction : Type 0 where
  dtmf : List KeypadEntry → IvrAction
  say : Text → IvrAction
  wait : IvrAction

pub record IvrStep : Type 0 where
  pub triggers : List Text
  pub action : IvrAction

pub record Script : Type 0 where
  pub steps : List IvrStep
  pub stuck_after : ℕ

pub record IvrNavigator : Type 0 where
  pub script : Script
  pub cursor : ℕ
  pub unmatched_streak : ℕ
  pub finished : Bool

-- `IvrStep::press` and `IvrStep::say`
unfoldable pub press : (Text → Text) → List Text → List KeypadEntry → IvrStep
press lower triggers digits = record { triggers = map lower triggers; action = dtmf digits }

unfoldable pub say_step : (Text → Text) → List Text → Text → IvrStep
say_step lower triggers reply = record { triggers = map lower triggers; action = say reply }

unfoldable pub matches : IvrStep → Text → Bool
unfolding contains
matches step prompt_lower = any (λ t. contains prompt_lower t) step.triggers

unfoldable pub new : Script → IvrNavigator
new script = record { script = script; cursor = 0; unmatched_streak = 0; finished = false }

unfoldable pub action_frame : IvrAction → Option Frame
action_frame (dtmf digits) = some (output_dtmf digits)
action_frame (say reply) = some (tts_speak reply (some false))
action_frame wait = none

-- `Frame::Custom` of an `IvrStatusChanged`
unfoldable pub status_frame : IvrStatus → Frame
status_frame status = custom (record {
  frame_class = control;
  uninterruptible = false;
  name = codes "IvrStatusChanged";
  as_any = ivr_status_changed status;
})

abbrev pub acted : Option Frame → List Send
acted none = []
acted (some frame) = push_down frame ∷ []

-- A prompt that the step at the cursor matches.
unfoldable pub take_step : IvrStep → IvrNavigator → List Send × IvrNavigator
unfolding action_frame status_frame
take_step step n =
    if leb (length n.script.steps) (n.cursor + 1)
    then (
      acted (action_frame step.action) ++ push_down (status_frame completed) ∷ [],
      record n { unmatched_streak = 0; cursor = n.cursor + 1; finished = true },
    )
    else (
      acted (action_frame step.action),
      record n { unmatched_streak = 0; cursor = n.cursor + 1 },
    )

-- A prompt that it does not.
unfoldable pub miss : IvrNavigator → List Send × IvrNavigator
unfolding status_frame
miss n =
    if ltb 0 n.script.stuck_after && leb n.script.stuck_after (n.unmatched_streak + 1)
    then (
      push_down (status_frame stuck) ∷ [],
      record n { unmatched_streak = n.unmatched_streak + 1; finished = true },
    )
    else ([], record n { unmatched_streak = n.unmatched_streak + 1 })

abbrev pub try_step : Option IvrStep → Text → IvrNavigator → List Send × IvrNavigator
try_step none prompt n = miss n
try_step (some step) prompt n = if matches step prompt then take_step step n else miss n

-- What a prompt makes the navigator do.
unfoldable pub hear_prompt : Text → IvrNavigator → List Send × IvrNavigator
unfolding take_step miss matches
hear_prompt prompt n =
    if n.finished then ([], n) else try_step (get_elem? n.script.steps n.cursor) prompt n

module _ (lower : Text → Text) where
  abbrev pub on_frame : Frame → Envelope → IvrNavigator → List Send × IvrNavigator
  on_frame (transcription words _ _ _) env n =
      let heard = hear_prompt (lower words) n in (pass env ∷ heard.0, heard.1)
  on_frame _ env n = (pass env ∷ [], n)

  unfoldable pub process_frame : Envelope → IvrNavigator → List Send × IvrNavigator
  unfolding hear_prompt
  process_frame env n = on_frame env.frame env n

abbrev status_in : CustomData → Option IvrStatus
status_in (ivr_status_changed status) = some status
status_in (voicemail_decision _ _) = none
status_in (usage_report _) = none
status_in (reprompt _ _) = none
status_in (foreign _) = none

unfoldable pub as_ivr_status : Frame → Option IvrStatus
as_ivr_status (custom c) = status_in c.as_any
as_ivr_status _ = none
