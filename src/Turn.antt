-- ===== src/Turn.antt =====
-- flowcat-core/src/audio/turn.rs: `TurnSilenceTracker`, `MockTurn`, and `TurnProcessor`, which cuts the
-- audio into windows, has each one analyzed, and reports a prediction when the user stops speaking.
-- Floats are bit patterns; their arithmetic is a parameter.
pub mod Windows
pub mod Reports
pub mod Silence
mod Tests
use flowcat.Base.{
  ℕ, ◌+◌, Bool, true, false, List, [], ◌∷◌, ◌++◌, Option, none, some, length, if◌then◌else◌,
  get_elem?,
}
use flowcat.Base.Int.{ℤ}
use flowcat.Base.Text.{codes}
use flowcat.Base.Blocks.{blocks}
use flowcat.Frame.{
  F32, AudioFrame, mono, StartParams, TurnParams, Frame, metrics, turn_prediction, input_audio,
  vad_user_started_speaking, vad_user_stopped_speaking,
}
use flowcat.Runtime.{Envelope}
use flowcat.Runtime.Sends.{Send, pass, push_down}
use flowcat.Vad.{VadState, quiet, starting, speaking, stopping, at_least_one, ge}

-- What the code takes from `f32` besides its order.
pub record FloatOps : Type 0 where
  pub of_int : ℕ → F32
  pub add : F32 → F32 → F32
  pub mul : F32 → F32 → F32
  pub div : F32 → F32 → F32

abbrev pub turn_stop_secs : F32
turn_stop_secs = 0x40400000

-- `TurnParams::default`
abbrev pub default_turn : TurnParams
default_turn = record {
  stop_secs = turn_stop_secs;
  pre_speech_ms = 0x43fa0000;
  max_duration_secs = some 0x41000000;
}

pub record TurnSilenceTracker : Type 0 where
  pub stop_ms : F32
  pub sample_rate : ℕ
  pub speech_triggered : Bool
  pub silence_ms : F32

-- `1000.0`
abbrev thousand : F32
thousand = 0x447a0000

pub record TurnPrediction : Type 0 where
  pub is_complete : Bool
  pub probability : F32

abbrev pub no_prediction : TurnPrediction
no_prediction = record { is_complete = false; probability = 0 }

pub record MockTurn : Type 0 where
  pub tracker : TurnSilenceTracker
  pub window_samples : ℕ
  pub script : Option (List (Bool × F32))
  pub script_pos : ℕ

abbrev pub hears_speech : VadState → Bool
hears_speech speaking = true
hears_speech starting = true
hears_speech _ = false

abbrev prediction_of : Bool × F32 → TurnPrediction
prediction_of entry = record { is_complete = entry.0; probability = entry.1 }

-- `script.last().copied().unwrap_or((false, 0.0))`
abbrev pub last_entry : List (Bool × F32) → Bool × F32
last_entry [] = (false, 0)
last_entry (e ∷ []) = e
last_entry (e ∷ d ∷ es) = last_entry (d ∷ es)

abbrev entry_or_last : Option (Bool × F32) → List (Bool × F32) → Bool × F32
entry_or_last (some e) script = e
entry_or_last none script = last_entry script

-- `service::TurnAnalyzer`, with its state.
pub record TurnAnalyzer (T : Type 0) : Type 0 where
  pub analyze_turn : AudioFrame → VadState → T → TurnPrediction × T
  pub set_params : TurnParams → T → T

module _ (ops : FloatOps) where
  unfoldable pub new_tracker : ℕ → F32 → TurnSilenceTracker
  new_tracker sample_rate stop_secs = record {
    stop_ms = ops.mul stop_secs thousand;
    sample_rate = sample_rate;
    speech_triggered = false;
    silence_ms = 0;
  }

  unfoldable pub set_stop_secs : F32 → TurnSilenceTracker → TurnSilenceTracker
  set_stop_secs stop_secs t = record t { stop_ms = ops.mul stop_secs thousand }

  abbrev pub chunk_ms : ℕ → ℕ → F32
  chunk_ms num_samples sample_rate =
      ops.div (ops.of_int num_samples) (ops.div (ops.of_int (at_least_one sample_rate)) thousand)

  -- `TurnSilenceTracker::append` on silence after speech.
  abbrev pub add_silence : ℕ → TurnSilenceTracker → Bool × TurnSilenceTracker
  add_silence num_samples t =
      let silence = ops.add t.silence_ms (chunk_ms num_samples t.sample_rate) in
      (ge silence t.stop_ms, record t { silence_ms = silence })

  -- `TurnSilenceTracker::append`
  unfoldable pub append_window : ℕ → Bool → TurnSilenceTracker → Bool × TurnSilenceTracker
  append_window num_samples true t = (false, record t { silence_ms = 0; speech_triggered = true })
  append_window num_samples false t =
      if t.speech_triggered then add_silence num_samples t else (false, t)

  unfoldable pub clear_tracker : TurnSilenceTracker → TurnSilenceTracker
  clear_tracker t = record t { speech_triggered = false; silence_ms = 0 }

  -- `MockTurn::with_stop_secs`; `MockTurn::new` is it at the default.
  unfoldable pub with_stop_secs : ℕ → ℕ → F32 → MockTurn
  unfolding new_tracker
  with_stop_secs sample_rate window_samples stop_secs = record {
    tracker = new_tracker sample_rate stop_secs;
    window_samples = window_samples;
    script = none;
    script_pos = 0;
  }

  unfoldable pub new_mock_turn : ℕ → ℕ → MockTurn
  unfolding with_stop_secs
  new_mock_turn sample_rate window_samples =
      with_stop_secs sample_rate window_samples turn_stop_secs

  unfoldable pub with_script : ℕ → ℕ → List (Bool × F32) → MockTurn
  unfolding new_tracker
  with_script sample_rate window_samples script = record {
    tracker = new_tracker sample_rate turn_stop_secs;
    window_samples = window_samples;
    script = some script;
    script_pos = 0;
  }

  abbrev pub by_silence : Bool × TurnSilenceTracker → MockTurn → TurnPrediction × MockTurn
  by_silence (true, t) m = (
    record { is_complete = true; probability = 0x3f800000 },
    record m { tracker = clear_tracker t },
  )
  by_silence (false, t) m = (no_prediction, record m { tracker = t })

  abbrev pub by_script :
      Option (List (Bool × F32)) → AudioFrame → VadState → MockTurn → TurnPrediction × MockTurn
  by_script (some script) audio vad m = (
    prediction_of (entry_or_last (get_elem? script m.script_pos) script),
    record m { script_pos = m.script_pos + 1 },
  )
  by_script none audio vad m =
      by_silence (append_window (length audio.pcm) (hears_speech vad) m.tracker) m

  -- `analyze_turn` of `MockTurn`
  unfoldable pub mock_analyze_turn : AudioFrame → VadState → MockTurn → TurnPrediction × MockTurn
  unfolding append_window clear_tracker
  mock_analyze_turn audio vad m = by_script m.script audio vad m

  -- `set_params` of `MockTurn`
  unfoldable pub set_turn_params : TurnParams → MockTurn → MockTurn
  unfolding set_stop_secs
  set_turn_params params m = record m { tracker = set_stop_secs params.stop_secs m.tracker }

  -- `MockTurn` as an analyzer.
  unfoldable pub mock_turn : TurnAnalyzer MockTurn
  unfolding mock_analyze_turn set_turn_params
  mock_turn = record { analyze_turn = mock_analyze_turn; set_params = set_turn_params }

pub record TurnProcessor (T : Type 0) : Type 0 where
  pub analyzer : T
  pub window_samples : ℕ
  pub buffer : List ℤ
  pub sample_rate : ℕ
  pub vad : VadState
  pub last_prediction : TurnPrediction

-- The metric that an edge sends.
abbrev pub turn_metric : TurnPrediction → Frame
turn_metric last =
    metrics (turn_prediction (codes "TurnProcessor") last.is_complete last.probability 0 ∷ [])

module _ {T : Type 0} where
  -- `TurnProcessor::new`
  unfoldable pub new_turn_processor : T → ℕ → ℕ → TurnProcessor T
  new_turn_processor analyzer sample_rate window_samples = record {
    analyzer = analyzer;
    window_samples = at_least_one window_samples;
    buffer = [];
    sample_rate = sample_rate;
    vad = quiet;
    last_prediction = no_prediction;
  }

  -- `start`
  unfoldable pub start_turns : StartParams → TurnProcessor T → TurnProcessor T
  start_turns params p = record p { sample_rate = params.audio_in_sample_rate }

  abbrev pub with_vad : VadState → TurnProcessor T → TurnProcessor T
  with_vad vad p = record p { vad = vad }

  abbrev pub hold : List ℤ → TurnProcessor T → TurnProcessor T
  hold pcm p = record p { buffer = p.buffer ++ pcm }

module _ {T : Type 0} (analyzer : TurnAnalyzer T) where
  -- The body of the loop in `drain_windows`.
  abbrev pub analyze_window : ℕ → VadState → List ℤ → T × TurnPrediction → T × TurnPrediction
  analyze_window sample_rate vad window s =
      let heard = analyzer.analyze_turn (mono window sample_rate) vad s.0 in (heard.1, heard.0)

  abbrev pub after_drain : List ℤ × (T × TurnPrediction) → TurnProcessor T → TurnProcessor T
  after_drain left p = record p { buffer = left.0; analyzer = left.1.0; last_prediction = left.1.1 }

  unfoldable pub drain_turns : TurnProcessor T → TurnProcessor T
  unfolding blocks
  drain_turns p =
      after_drain
        (blocks p.window_samples (analyze_window p.sample_rate p.vad) (length p.buffer) p.buffer
          (p.analyzer, p.last_prediction))
        p

  -- The frames that are pushed before the one that came.
  unfoldable pub on_turn_frame : Frame → TurnProcessor T → List Send × TurnProcessor T
  unfolding drain_turns
  on_turn_frame (vad_user_started_speaking _) p = ([], with_vad speaking p)
  on_turn_frame (vad_user_stopped_speaking _) p =
      let p' = drain_turns (with_vad quiet p) in
      (push_down (turn_metric p'.last_prediction) ∷ [], p')
  on_turn_frame (input_audio audio) p = ([], drain_turns (hold audio.pcm p))
  on_turn_frame _ p = ([], p)

  -- `process_frame`
  unfoldable pub turn_process_frame : Envelope → TurnProcessor T → List Send × TurnProcessor T
  unfolding on_turn_frame
  turn_process_frame env p = let now = on_turn_frame env.frame p in (now.0 ++ pass env ∷ [], now.1)
