-- ===== src/Turn/Windows.antt =====
-- flowcat-core/src/audio/turn.rs: how `TurnProcessor` cuts the audio into windows.
use mathlib.Core.List.{append_assoc}
use flowcat.Base.{ℕ, ◌<◌, ◌≡◌, sym, ap, ◌∙◌, List, [], ◌++◌, length, arith}
use flowcat.Base.Int.{ℤ}
use flowcat.Base.Blocks.{blocks, blocks-short, blocks-left, blocks-join}
use flowcat.Frame.{input_audio}
use flowcat.Runtime.Sends.{Send}
use flowcat.Turn.{
  TurnAnalyzer, TurnProcessor, TurnPrediction, analyze_window, after_drain, drain_turns,
  on_turn_frame,
}

-- A processor that waits for a frame: windows are not empty, and less than one is held.
abbrev pub IsWaiting : {T : Type 0} → TurnProcessor T → Type 0
IsWaiting p = length p.buffer < p.window_samples

module _ {T : Type 0} (analyzer : TurnAnalyzer T) where
  pub drain_turns-short : (p : TurnProcessor T) → IsWaiting p → drain_turns analyzer p ≡ p
  unfolding drain_turns
  drain_turns-short p short =
      ap (λ left. after_drain analyzer left p)
        (blocks-short p.window_samples (analyze_window analyzer p.sample_rate p.vad)
          (length p.buffer) p.buffer (p.analyzer, p.last_prediction) short)

  pub drain_turns-IsWaiting :
      (p : TurnProcessor T) → 0 < p.window_samples → IsWaiting (drain_turns analyzer p)
  unfolding drain_turns
  drain_turns-IsWaiting p pos =
      blocks-left p.window_samples (analyze_window analyzer p.sample_rate p.vad) pos
        (length p.buffer) p.buffer (p.analyzer, p.last_prediction) (omega arith)

  abbrev quiet_end : TurnProcessor T → List ℤ × (T × TurnPrediction) → List Send × TurnProcessor T
  quiet_end p left = ([], after_drain analyzer left p)

  -- Where the samples come in two audio frames, the processor ends up as it does when they come in one: every window
  -- is analyzed once, in order, whatever the frames' sizes.
  pub on_turn_frame-append :
      (xs ys : List ℤ) (rate channels : ℕ) (p : TurnProcessor T)
      → 0 < p.window_samples
      → on_turn_frame analyzer
          (input_audio (record { pcm = xs ++ ys; sample_rate = rate; num_channels = channels }))
          p
        ≡ on_turn_frame analyzer
            (input_audio (record { pcm = ys; sample_rate = rate; num_channels = channels }))
            (on_turn_frame analyzer
              (input_audio (record { pcm = xs; sample_rate = rate; num_channels = channels }))
              p).1
  unfolding on_turn_frame drain_turns
  on_turn_frame-append xs ys rate channels p pos =
      let b = p.buffer in
      let step = analyze_window analyzer p.sample_rate p.vad in
      let start : T × TurnPrediction = (p.analyzer, p.last_prediction) in
      ap (λ (c : List ℤ). quiet_end p (blocks p.window_samples step (length c) c start))
        (sym (append_assoc b xs ys))
      ∙ ap (quiet_end p) (blocks-join p.window_samples step pos (b ++ xs) ys start)
