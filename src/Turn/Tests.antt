-- ===== src/Turn/Tests.antt =====
-- flowcat-core/src/audio/turn.rs: windows of two samples through the scripted analyzer, and one by silence.
use flowcat.Base.{◌+◌, ◌≡◌, refl, true, false, List, [], ◌∷◌, length, arith}
use flowcat.Base.Int.{ℤ, pos}
use flowcat.Frame.{
  Frame, AudioFrame, mono, downstream, input_audio, vad_user_started_speaking,
  vad_user_stopped_speaking,
}
use flowcat.Runtime.{Envelope, new_meta}
use flowcat.Runtime.Sends.{made, passed, run}
use flowcat.Vad.{ge, VadState, quiet, speaking}
use flowcat.Turn.{
  FloatOps, MockTurn, TurnProcessor, TurnPrediction, mock_turn, with_script, with_stop_secs,
  mock_analyze_turn, new_turn_processor, turn_metric, turn_process_frame,
}
use flowcat.Turn.Windows.{IsWaiting}
use flowcat.Turn.Reports.{stops, run-Reported}
use flowcat.Turn.Silence.{completions, analyze_all}

-- Operations in whole numbers.
abbrev whole : FloatOps
whole = record { of_int = λ n. n; add = λ a b. a + b; mul = λ a b. a; div = λ a b. a }

abbrev scripted : TurnProcessor MockTurn
scripted = new_turn_processor (with_script whole 16000 2 ((false, 1) ∷ (true, 2) ∷ [])) 16000 2

-- One sample is held.
abbrev held : TurnProcessor MockTurn
held = record scripted { buffer = pos 7 ∷ [] }

abbrev carried : Frame → Envelope
carried frame = record { meta = new_meta 1 frame; frame = frame; direction = downstream }

abbrev three_samples : List ℤ
three_samples = pos 1 ∷ pos 2 ∷ pos 3 ∷ []

abbrev talk : List Envelope
talk =
    carried (vad_user_started_speaking 5)
    ∷ carried (input_audio (mono three_samples 16000))
    ∷ carried (vad_user_stopped_speaking 5)
    ∷ []

abbrev told : TurnPrediction
told = record { is_complete = true; probability = 2 }

-- The held sample and the three are two windows, and the second entry of the script is reported.
reports_second :
    made (run (turn_process_frame (mock_turn whole)) talk held).0 ≡ turn_metric told ∷ []
unfolding turn_process_frame mock_turn with_script new_turn_processor
reports_second = refl

run-Reported_example :
    (passed (run (turn_process_frame (mock_turn whole)) talk held).0 ≡ talk)
    × ((length (made (run (turn_process_frame (mock_turn whole)) talk held).0) ≡ stops talk)
        × IsWaiting (run (turn_process_frame (mock_turn whole)) talk held).1)
unfolding new_turn_processor
run-Reported_example = run-Reported (mock_turn whole) talk held (omega arith)

abbrev windows : List (AudioFrame × VadState)
windows =
    (mono three_samples 1, speaking)
    ∷ (mono three_samples 1, quiet)
    ∷ (mono three_samples 1, quiet)
    ∷ []

abbrev patient : MockTurn
patient = with_stop_secs whole 1 3 3

-- Three samples of silence reach the limit, and then nothing is said.
completes_once : completions (analyze_all whole windows patient).0 ≡ 1
unfolding mock_analyze_turn with_stop_secs ge
completes_once = refl
