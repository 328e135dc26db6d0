-- ===== src/Turn/Reports.antt =====
-- flowcat-core/src/audio/turn.rs: what `TurnProcessor` sends, over any run.
use mathlib.Core.List.{append-nil}
use flowcat.Base.{
  ℕ, ◌+◌, ◌≡◌, refl, ap, ap₂, ◌∙◌, List, [], ◌∷◌, ◌++◌, length, arith, length-append,
}
use flowcat.Frame.{F32, Frame, vad_user_started_speaking, vad_user_stopped_speaking, input_audio}
use flowcat.Runtime.{Envelope}
use flowcat.Runtime.Sends.{
  push_down, pass, made, passed, made-append, passed-append, run, passed-run,
}
use flowcat.Vad.{quiet}
use flowcat.Turn.{
  TurnAnalyzer, TurnProcessor, with_vad, hold, turn_metric, on_turn_frame, turn_process_frame,
}
use flowcat.Turn.Windows.{IsWaiting, drain_turns-short, drain_turns-IsWaiting}

abbrev pub is_stop : Frame → ℕ
is_stop (vad_user_stopped_speaking _) = 1
is_stop _ = 0

-- How often the user stops speaking.
abbrev pub stops : List Envelope → ℕ
stops [] = 0
stops (env ∷ envs) = is_stop env.frame + stops envs

module _ {T : Type 0} (analyzer : TurnAnalyzer T) where
  -- When the user stops speaking, what is reported is the prediction that the last whole window got before that; the
  -- rest of the buffer is neither analyzed nor dropped.
  pub on_turn_frame-stop :
      (secs : F32) (p : TurnProcessor T)
      → IsWaiting p
      → on_turn_frame analyzer (vad_user_stopped_speaking secs) p
        ≡ (push_down (turn_metric p.last_prediction) ∷ [], with_vad quiet p)
  unfolding on_turn_frame
  on_turn_frame-stop secs p waiting =
      ap (λ (q : TurnProcessor T). (push_down (turn_metric q.last_prediction) ∷ [], q))
        (drain_turns-short analyzer (with_vad quiet p) waiting)

  on_turn_frame-IsWaiting :
      (frame : Frame) (p : TurnProcessor T)
      → IsWaiting p
      → IsWaiting (on_turn_frame analyzer frame p).1
  unfolding on_turn_frame
  on_turn_frame-IsWaiting (vad_user_started_speaking _) p w = w
  on_turn_frame-IsWaiting (vad_user_stopped_speaking _) p w =
      drain_turns-IsWaiting analyzer (with_vad quiet p) (omega arith)
  on_turn_frame-IsWaiting (input_audio audio) p w =
      drain_turns-IsWaiting analyzer (hold audio.pcm p) (omega arith)
  on_turn_frame-IsWaiting _ p w = w

  made-on_turn_frame :
      (frame : Frame) (p : TurnProcessor T)
      → (passed (on_turn_frame analyzer frame p).0 ≡ [])
        × (length (made (on_turn_frame analyzer frame p).0) ≡ is_stop frame)
  unfolding on_turn_frame
  made-on_turn_frame (vad_user_started_speaking _) p = (refl, refl)
  made-on_turn_frame (vad_user_stopped_speaking _) p = (refl, refl)
  made-on_turn_frame (input_audio audio) p = (refl, refl)
  made-on_turn_frame _ p = (refl, refl)

  one_passed :
      (env : Envelope) (p : TurnProcessor T)
      → passed (turn_process_frame analyzer env p).0 ≡ env ∷ []
  unfolding turn_process_frame
  one_passed env p =
      passed-append (on_turn_frame analyzer env.frame p).0 (pass env ∷ [])
      ∙ ap (λ (xs : List Envelope). xs ++ env ∷ []) (made-on_turn_frame env.frame p).0

  stops_made :
      (env : Envelope) (p : TurnProcessor T)
      → length (made (turn_process_frame analyzer env p).0) ≡ is_stop env.frame
  unfolding turn_process_frame
  stops_made env p =
      ap length (made-append (on_turn_frame analyzer env.frame p).0 (pass env ∷ []))
      ∙ ap length (append-nil (made (on_turn_frame analyzer env.frame p).0))
      ∙ (made-on_turn_frame env.frame p).1

  made-run :
      (envs : List Envelope) (p : TurnProcessor T)
      → length (made (run (turn_process_frame analyzer) envs p).0) ≡ stops envs
  made-run [] p = refl
  made-run (env ∷ envs) p =
      let now = turn_process_frame analyzer env p in
      let rest = run (turn_process_frame analyzer) envs now.1 in
      ap length (made-append now.0 rest.0)
      ∙ length-append (made now.0) (made rest.0)
      ∙ ap₂ (λ m n. m + n) (stops_made env p) (made-run envs now.1)

  run-IsWaiting :
      (envs : List Envelope) (p : TurnProcessor T)
      → IsWaiting p
      → IsWaiting (run (turn_process_frame analyzer) envs p).1
  unfolding turn_process_frame
  run-IsWaiting [] p w = w
  run-IsWaiting (env ∷ envs) p w =
      run-IsWaiting envs (turn_process_frame analyzer env p).1
        (on_turn_frame-IsWaiting env.frame p w)

  -- Over any frames, a processor that waits passes each on once, in order, makes one frame for each time that the user
  -- stops speaking, and waits again: it holds less than a window.
  pub run-Reported :
      (envs : List Envelope) (p : TurnProcessor T)
      → IsWaiting p
      → (passed (run (turn_process_frame analyzer) envs p).0 ≡ envs)
        × ((length (made (run (turn_process_frame analyzer) envs p).0) ≡ stops envs)
            × IsWaiting (run (turn_process_frame analyzer) envs p).1)
  run-Reported envs p w = (
    passed-run (turn_process_frame analyzer) one_passed envs p,
    (made-run envs p, run-IsWaiting envs p w),
  )
