-- ===== src/Vad/Stream.antt =====
-- flowcat-core/src/audio/vad.rs: `MockVad`, and `VadProcessor`, which cuts the audio into windows and
-- turns the analyzer's states into frames. What it does to the outside is a list of effects, in
-- order.
pub mod Windows
pub mod Edges
use flowcat.Base.{
  ℕ, zero, suc, ◌+◌, Bool, true, false, not, ◌&&◌, List, [], ◌∷◌, ◌++◌, Option, none, some, length,
  take, drop, leb, if◌then◌else◌, get_elem?,
}
use flowcat.Base.Int.{ℤ}
use flowcat.Frame.{
  F32, VadParams, AudioFrame, mono, StartParams, Frame, interruption, input_audio,
  bot_started_speaking, bot_stopped_speaking, vad_user_started_speaking, vad_user_stopped_speaking,
  user_started_speaking, user_stopped_speaking,
}
use flowcat.Runtime.{Envelope}
use flowcat.Vad.{
  VadState, quiet, starting, speaking, stopping, Rounding, at_least_one, ge, VadStateMachine,
  advance, set_params,
}

-- `service::VadAnalyzer`, with its state.
pub record VadAnalyzer (A : Type 0) : Type 0 where
  pub sample_rate : A → ℕ
  pub analyze : A → AudioFrame → A × VadState
  pub set_params : VadParams → A → A

pub record MockVad : Type 0 where
  pub sm : VadStateMachine
  pub window_samples : ℕ
  pub script : Option (List F32)
  pub script_pos : ℕ

-- `script.last().copied().unwrap_or(0.0)`
abbrev last_or_zero : List F32 → F32
last_or_zero [] = 0
last_or_zero (c ∷ []) = c
last_or_zero (c ∷ d ∷ cs) = last_or_zero (d ∷ cs)

abbrev or_else : Option F32 → F32 → F32
or_else (some c) d = c
or_else none d = d

module _ (window_volume : List ℤ → F32) where
  -- The confidence, the volume for the gate, and the next place in the script.
  unfoldable pub hear : Option (List F32) → MockVad → AudioFrame → F32 × (F32 × ℕ)
  unfolding ge
  hear (some script) v audio = (
    or_else (get_elem? script v.script_pos) (last_or_zero script),
    (v.sm.params.min_volume, v.script_pos + 1),
  )
  hear none v audio =
      let volume = window_volume audio.pcm in
      (if ge volume v.sm.params.min_volume then 0x3f800000 else 0, (volume, v.script_pos))

  unfoldable pub mock_analyze : MockVad → AudioFrame → MockVad × VadState
  unfolding hear
  mock_analyze v audio =
      let heard = hear v.script v audio in
      let sm = advance heard.0 heard.1.0 v.sm in
      (record v { sm = sm; script_pos = heard.1.1 }, sm.state)

-- `MockVad` as an analyzer.
abbrev pub mock_vad : Rounding → (List ℤ → F32) → VadAnalyzer MockVad
mock_vad r window_volume = record {
  sample_rate = λ v. v.sm.sample_rate;
  analyze = mock_analyze window_volume;
  set_params = λ params v. record v { sm = set_params r params v.sm };
}

pub data Effect : Type 0 where
  push_down : Frame → Effect
  broadcast : Frame → Effect
  bump_flag wake : Effect
  forward : Envelope → Effect

-- The flag and the waker are there or not.
pub record VadProcessor (A : Type 0) : Type 0 where
  pub analyzer : A
  pub window_samples : ℕ
  pub buffer : List ℤ
  pub sample_rate : ℕ
  pub last_state : VadState
  pub bot_speaking : Bool
  pub interrupt_on_barge_in : Bool
  pub has_flag : Bool
  pub has_notify : Bool

abbrev pub is_talking : VadState → Bool
is_talking speaking = true
is_talking stopping = true
is_talking _ = false

abbrev pub is_speaking : VadState → Bool
is_speaking speaking = true
is_speaking _ = false

abbrev pub is_quiet : VadState → Bool
is_quiet quiet = true
is_quiet _ = false

abbrev when : Bool → List Effect → List Effect
when b effects = if b then effects else []

module _ {A : Type 0} (r : Rounding) (analyzer : VadAnalyzer A) where
  -- `VadProcessor::new`
  unfoldable pub new_processor : A → ℕ → VadProcessor A
  new_processor a window_samples = record {
    analyzer = a;
    window_samples = at_least_one window_samples;
    buffer = [];
    sample_rate = analyzer.sample_rate a;
    last_state = quiet;
    bot_speaking = false;
    interrupt_on_barge_in = true;
    has_flag = false;
    has_notify = false;
  }

  unfoldable pub window_secs : VadProcessor A → F32
  window_secs p = r.div (r.of_int p.window_samples) (r.of_int (at_least_one p.sample_rate))

  unfoldable pub barge_in : VadProcessor A → List Effect
  barge_in p = when (p.bot_speaking && p.interrupt_on_barge_in) (
      when p.has_flag (bump_flag ∷ [])
      ++ when p.has_notify (wake ∷ [])
      ++ broadcast interruption ∷ [])

  -- The edge between the last state and the new one.
  unfoldable pub edge_frames : VadState → VadProcessor A → List Effect
  unfolding window_secs barge_in
  edge_frames new_state p =
      if is_speaking new_state && not (is_talking p.last_state)
      then push_down (vad_user_started_speaking (window_secs p))
        ∷ push_down user_started_speaking
        ∷ barge_in p
      else if is_talking p.last_state && is_quiet new_state
      then push_down (vad_user_stopped_speaking (window_secs p))
        ∷ push_down user_stopped_speaking
        ∷ []
      else []

  -- One turn of the loop in `drain_windows`, on a window taken off the buffer.
  unfoldable pub take_window : List ℤ → VadProcessor A → List Effect × VadProcessor A
  unfolding edge_frames
  take_window window p =
      let heard = analyzer.analyze p.analyzer (mono window p.sample_rate) in
      (edge_frames heard.1 p, record p { analyzer = heard.0; last_state = heard.1 })

  -- `drain_windows`: the fuel bounds the number of windows.
  unfoldable pub drain_windows : ℕ → VadProcessor A → List Effect × VadProcessor A
  unfolding take_window
  drain_windows zero p = ([], p)
  drain_windows (suc fuel) p =
      let n = p.window_samples in
      let turn = take_window (take n p.buffer) (record p { buffer = drop n p.buffer }) in
      let rest = drain_windows fuel turn.1 in
      if leb n (length p.buffer) then (turn.0 ++ rest.0, rest.1) else ([], p)

  unfoldable pub hear_audio : List ℤ → VadProcessor A → List Effect × VadProcessor A
  unfolding drain_windows
  hear_audio pcm p =
      let p' = record p { buffer = p.buffer ++ pcm } in drain_windows (length p'.buffer) p'

  unfoldable pub handle : Frame → VadProcessor A → List Effect × VadProcessor A
  unfolding hear_audio
  handle bot_started_speaking p = ([], record p { bot_speaking = true })
  handle bot_stopped_speaking p = ([], record p { bot_speaking = false })
  handle (input_audio audio) p = hear_audio audio.pcm p
  handle _ p = ([], p)

  -- `process_frame`
  unfoldable pub process_frame : Envelope → VadProcessor A → List Effect × VadProcessor A
  unfolding handle
  process_frame env p =
      let handled = handle env.frame p in (handled.0 ++ forward env ∷ [], handled.1)
