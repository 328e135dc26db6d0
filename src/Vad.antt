-- ===== src/Vad.antt =====
-- flowcat-core/src/audio/vad.rs: `VadStateMachine`, the hysteresis that turns the confidence and the
-- volume of each window into quiet, starting, speaking and stopping. Floats are bit patterns and
-- compared as IEEE 754 does; division, rounding and the casts are a parameter.
pub mod Debounce
pub mod Stream
mod Tests
use flowcat.Base.{
  ℕ, ◌+◌, ◌-◌, ◌%◌, Bool, true, false, not, ◌&&◌, List, [], ◌∷◌, ltb, leb, if◌then◌else◌,
}
use flowcat.Frame.{F32, VadParams}

-- `service::VadState`
pub data VadState : Type 0 where
  quiet starting speaking stopping : VadState

-- What the code takes from `f32` besides its order: `as f32` from an integer, `/`, `round`, and
-- `as u32`.
pub record Rounding : Type 0 where
  pub of_int : ℕ → F32
  pub div : F32 → F32 → F32
  pub round : F32 → F32
  pub to_u32 : F32 → ℕ

abbrev is_nan : F32 → Bool
is_nan x = ltb 0x7f800000 (x % 0x80000000)

-- The place of a number that is not a NaN in the order of floats, where the two zeros meet.
abbrev rank : F32 → ℕ
rank x = if ltb x 0x80000000 then 0x80000000 + x else 0x80000000 - x % 0x80000000

-- `a >= b`
unfoldable pub ge : F32 → F32 → Bool
ge a b = not (is_nan a) && (not (is_nan b) && leb (rank b) (rank a))

abbrev one : F32
one = 0x3f800000

-- `x.max(1.0)`
unfoldable pub max_one : F32 → F32
unfolding ge
max_one x = if ge x one then x else one

unfoldable pub default_params : VadParams
default_params = record {
  confidence = 0x3f333333;
  start_secs = 0x3e4ccccd;
  stop_secs = 0x3e4ccccd;
  min_volume = 0x3f19999a;
}

pub record VadStateMachine : Type 0 where
  pub params : VadParams
  pub sample_rate : ℕ
  pub window_samples : ℕ
  pub start_frames : ℕ
  pub stop_frames : ℕ
  pub starting_count : ℕ
  pub stopping_count : ℕ
  pub state : VadState

-- `n.max(1)`
abbrev pub at_least_one : ℕ → ℕ
at_least_one n = if leb n 1 then 1 else n

module _ (r : Rounding) where
  -- The closure `per` of `recompute_debounce`.
  unfoldable pub per : F32 → F32 → ℕ
  unfolding ge max_one
  per window_secs secs =
      if ge 0 window_secs then 1 else r.to_u32 (max_one (r.round (r.div secs window_secs)))

  unfoldable pub recompute_debounce : VadStateMachine → VadStateMachine
  unfolding per
  recompute_debounce m =
      let window_secs = r.div (r.of_int m.window_samples) (r.of_int (at_least_one m.sample_rate)) in
      record m {
        start_frames = per window_secs m.params.start_secs;
        stop_frames = per window_secs m.params.stop_secs;
      }

  -- `VadStateMachine::new`
  unfoldable pub new : ℕ → ℕ → VadParams → VadStateMachine
  unfolding recompute_debounce
  new sample_rate window_samples params = recompute_debounce (record {
    params = params;
    sample_rate = sample_rate;
    window_samples = window_samples;
    start_frames = 1;
    stop_frames = 1;
    starting_count = 0;
    stopping_count = 0;
    state = quiet;
  })

  unfoldable pub set_params : VadParams → VadStateMachine → VadStateMachine
  unfolding recompute_debounce
  set_params params m =
      recompute_debounce
        (record m { params = params; starting_count = 0; stopping_count = 0; state = quiet })

-- `confidence >= params.confidence && volume >= params.min_volume`
unfoldable pub is_speech : VadParams → F32 → F32 → Bool
unfolding ge
is_speech params confidence volume = ge confidence params.confidence && ge volume params.min_volume

-- The two matches of `advance`; the counts are `u32`.
unfoldable pub on_speech : VadState → VadStateMachine → VadStateMachine
on_speech quiet m = record m { state = starting; starting_count = 1 }
on_speech starting m = record m { starting_count = (m.starting_count + 1) % 0x100000000 }
on_speech stopping m = record m { state = speaking; stopping_count = 0 }
on_speech speaking m = m

unfoldable pub on_silence : VadState → VadStateMachine → VadStateMachine
on_silence starting m = record m { state = quiet; starting_count = 0 }
on_silence speaking m = record m { state = stopping; stopping_count = 1 }
on_silence stopping m = record m { stopping_count = (m.stopping_count + 1) % 0x100000000 }
on_silence quiet m = m

-- The two tests after them.
unfoldable pub confirm_start : VadState → VadStateMachine → VadStateMachine
confirm_start starting m =
    if leb m.start_frames m.starting_count
    then record m { state = speaking; starting_count = 0 }
    else m
confirm_start _ m = m

unfoldable pub confirm_stop : VadState → VadStateMachine → VadStateMachine
confirm_stop stopping m =
    if leb m.stop_frames m.stopping_count then record m { state = quiet; stopping_count = 0 } else m
confirm_stop _ m = m

-- `advance` with the test made.
unfoldable pub advance_by : Bool → VadStateMachine → VadStateMachine
unfolding on_speech on_silence confirm_start confirm_stop
advance_by heard m =
    let gated = if heard then on_speech m.state m else on_silence m.state m in
    let confirmed = confirm_start gated.state gated in confirm_stop confirmed.state confirmed

-- `advance`; what it returns is the state of the result.
unfoldable pub advance : F32 → F32 → VadStateMachine → VadStateMachine
unfolding is_speech advance_by
advance confidence volume m = advance_by (is_speech m.params confidence volume) m
