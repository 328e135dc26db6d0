-- ===== src/Vad/Stream/Edges.antt =====
-- The speech edges that `VadProcessor` reports, and the interruptions it broadcasts.
use mathlib.Core.List.{append_assoc}
use flowcat.Base.{
  ℕ, zero, suc, ◌≡◌, refl, sym, ap, subst, ◌∙◌, inl, inr, Bool, true, false, not, List, [], ◌∷◌,
  ◌++◌, length, take, drop, leb, leb→le, leb→lt, arith, Bool-cases,
}
use flowcat.Base.Int.{ℤ}
use flowcat.Frame.{
  F32, Frame, vad_user_started_speaking, vad_user_stopped_speaking, input_audio,
  bot_started_speaking, bot_stopped_speaking, AudioFrame, mono,
}
use flowcat.Runtime.{Envelope}
use flowcat.Vad.Stream.Windows.{turn, drain-go, drain-none, drain-rest}
use flowcat.Vad.{
  VadState, quiet, starting, speaking, stopping, Rounding, VadStateMachine, advance, advance_by,
  on_speech, on_silence, confirm_start, confirm_stop, is_speech,
}
use flowcat.Vad.Stream.{
  VadAnalyzer, VadProcessor, MockVad, mock_vad, mock_analyze, hear, Effect, push_down, is_talking,
  take_window, drain_windows, hear_audio, process_frame, handle, forward, edge_frames, barge_in,
}

-- The edges among the effects: true for a start of speech, false for its end.
frame_edges : Frame → List Bool
frame_edges (vad_user_started_speaking _) = true ∷ []
frame_edges (vad_user_stopped_speaking _) = false ∷ []
frame_edges _ = []

effect_edges : Effect → List Bool
unfolding frame_edges
effect_edges (push_down frame) = frame_edges frame
effect_edges _ = []

unfoldable pub edges : List Effect → List Bool
unfolding effect_edges
edges [] = []
edges (e ∷ es) = effect_edges e ++ edges es

edges-append : (es fs : List Effect) → edges (es ++ fs) ≡ edges es ++ edges fs
unfolding edges
edges-append [] fs = refl
edges-append (e ∷ es) fs =
    ap (λ bs. effect_edges e ++ bs) (edges-append es fs)
    ∙ sym (append_assoc (effect_edges e) (edges es) (edges fs))

-- Each edge differs from the side before it, and the last side is the one named.
abbrev pub Alternates : Bool → List Bool → Bool → Type 0
Alternates side [] last = side ≡ last
Alternates side (e ∷ es) last = (e ≡ not side) × Alternates e es last

Alternates-append :
    (a b c : Bool) (es fs : List Bool)
    → Alternates a es b
    → Alternates b fs c
    → Alternates a (es ++ fs) c
Alternates-append a b c [] fs h k = subst (λ x. Alternates x fs c) (sym h) k
Alternates-append a b c (e ∷ es) fs h k = (h.0, Alternates-append e b c es fs h.1 k)

-- The moves that `VadStateMachine` makes: a side is left only to quiet or to speaking.
may_move : VadState → VadState → Bool
may_move quiet stopping = false
may_move starting stopping = false
may_move speaking starting = false
may_move stopping starting = false
may_move _ _ = true

advance_by-moves :
    (heard : Bool) (s : VadState) (m : VadStateMachine)
    → may_move s (advance_by heard (record m { state = s })).state ≡ true
unfolding may_move advance_by on_speech on_silence confirm_start confirm_stop
advance_by-moves true quiet m = ground arith
advance_by-moves true starting m = ground arith
advance_by-moves true speaking m = ground arith
advance_by-moves true stopping m = ground arith
advance_by-moves false quiet m = ground arith
advance_by-moves false starting m = ground arith
advance_by-moves false speaking m = ground arith
advance_by-moves false stopping m = ground arith

module _ {A : Type 0} (r : Rounding) (an : VadAnalyzer A) where
  edges-barge_in : (p : VadProcessor A) → edges (barge_in r an p) ≡ []
  unfolding edges effect_edges frame_edges barge_in
  edges-barge_in p = ground arith

  rising : (p : VadProcessor A) → Alternates true (edges (barge_in r an p)) true
  rising p = subst (λ es. Alternates true es true) (sym (edges-barge_in p)) refl

  edge-Alternates :
      (l n : VadState) (p : VadProcessor A)
      → may_move l n ≡ true
      → Alternates
          (is_talking l)
          (edges (edge_frames r an n (record p { last_state = l })))
          (is_talking n)
  unfolding may_move edges effect_edges frame_edges edge_frames
  edge-Alternates quiet quiet p h = refl
  edge-Alternates quiet starting p h = refl
  edge-Alternates quiet speaking p h = (refl, rising (record p { last_state = quiet }))
  edge-Alternates quiet stopping p h = absurd (ground arith)
  edge-Alternates starting quiet p h = refl
  edge-Alternates starting starting p h = refl
  edge-Alternates starting speaking p h = (refl, rising (record p { last_state = starting }))
  edge-Alternates starting stopping p h = absurd (ground arith)
  edge-Alternates speaking quiet p h = (refl, refl)
  edge-Alternates speaking starting p h = absurd (ground arith)
  edge-Alternates speaking speaking p h = refl
  edge-Alternates speaking stopping p h = refl
  edge-Alternates stopping quiet p h = (refl, refl)
  edge-Alternates stopping starting p h = absurd (ground arith)
  edge-Alternates stopping speaking p h = refl
  edge-Alternates stopping stopping p h = refl

-- The edges of a result go on from the side before it.
abbrev pub Reports : {A : Type 0} → VadProcessor A → List Effect × VadProcessor A → Type 0
Reports p d = Alternates (is_talking p.last_state) (edges d.0) (is_talking d.1.last_state)

-- The processor has seen the state that the mock is in.
abbrev pub IsInStep : VadProcessor MockVad → Type 0
IsInStep p = p.last_state ≡ p.analyzer.sm.state

module _ (r : Rounding) (volume : List ℤ → F32) where
  abbrev an : VadAnalyzer MockVad
  an = mock_vad r volume

  abbrev Goes : VadProcessor MockVad → List Effect × VadProcessor MockVad → Type 0
  Goes p d = Reports p d × IsInStep d.1

  move :
      (v : MockVad) (audio : AudioFrame)
      → may_move v.sm.state (mock_analyze volume v audio).1 ≡ true
  unfolding mock_analyze advance
  move v audio =
      let heard = hear volume v.script v audio in
      advance_by-moves (is_speech v.sm.params heard.0 heard.1.0) v.sm.state v.sm

  take_window-Goes :
      (window : List ℤ) (p : VadProcessor MockVad) → IsInStep p → Goes p (take_window r an window p)
  unfolding take_window mock_analyze
  take_window-Goes window p h =
      let audio = mono window p.sample_rate in
      (
        edge-Alternates r an p.last_state (mock_analyze volume p.analyzer audio).1 p (
            subst (λ s. may_move s (mock_analyze volume p.analyzer audio).1 ≡ true) (sym h)
              (move p.analyzer audio)),
        refl,
      )

  Goes-then :
      (p : VadProcessor MockVad) (d e : List Effect × VadProcessor MockVad)
      → Goes p d
      → Goes d.1 e
      → Goes p (d.0 ++ e.0, e.1)
  Goes-then p d e h k = (
    subst (λ es. Alternates (is_talking p.last_state) es (is_talking e.1.last_state))
        (sym (edges-append d.0 e.0))
        (Alternates-append (is_talking p.last_state) (is_talking d.1.last_state)
          (is_talking e.1.last_state) (edges d.0) (edges e.0) h.0 k.0),
    k.1,
  )

  stays : (p : VadProcessor MockVad) → IsInStep p → Goes p ([], p)
  unfolding edges
  stays p h = (refl, h)

  drain-Goes :
      (fuel : ℕ) (p : VadProcessor MockVad) → IsInStep p → Goes p (drain_windows r an fuel p)
  drain-Goes zero p h = subst (Goes p) (sym (drain-none r an p)) (stays p h)
  drain-Goes (suc fuel) p h = elim (Bool-cases (leb p.window_samples (length p.buffer))) [
    | inl full ↦
        let p' = record p { buffer = drop p.window_samples p.buffer } in
        let first = take_window-Goes (take p.window_samples p.buffer) p' h in
        let rest = drain-Goes fuel (turn r an p).1 first.1 in
        subst (Goes p) (sym (drain-go r an fuel p (leb→le p.window_samples (length p.buffer) full)))
          (Goes-then p (turn r an p) (drain_windows r an fuel (turn r an p).1) first rest)
    | inr short ↦
        subst (Goes p)
          (sym (drain-rest r an (suc fuel) p (leb→lt p.window_samples (length p.buffer) short)))
          (stays p h)
  ]

  handle-Goes :
      (frame : Frame) (p : VadProcessor MockVad) → IsInStep p → Goes p (handle r an frame p)
  unfolding handle hear_audio edges
  handle-Goes (input_audio audio) p h =
      let p' = record p { buffer = p.buffer ++ audio.pcm } in drain-Goes (length p'.buffer) p' h
  handle-Goes bot_started_speaking p h = (refl, h)
  handle-Goes bot_stopped_speaking p h = (refl, h)
  handle-Goes _ p h = (refl, h)

  process-Goes :
      (env : Envelope) (p : VadProcessor MockVad) → IsInStep p → Goes p (process_frame r an env p)
  unfolding process_frame edges effect_edges
  process-Goes env p h =
      Goes-then p (handle r an env.frame p) (forward env ∷ [], (handle r an env.frame p).1)
        (handle-Goes env.frame p h) (refl, (handle-Goes env.frame p h).1)

  -- The frames that the processor is given, one after another.
  abbrev pub run : List Envelope → VadProcessor MockVad → List Effect × VadProcessor MockVad
  run [] p = ([], p)
  run (env ∷ envs) p =
      let first = process_frame r an env p in
      let rest = run envs first.1 in (first.0 ++ rest.0, rest.1)

  -- Around a `MockVad` that it is in step with, whatever frames arrive, the processor reports starts
  -- and ends of speech in alternation, beginning with the side that it is not on, and it ends on the
  -- side of the last report and in step.
  pub run-Alternates :
      (envs : List Envelope) (p : VadProcessor MockVad)
      → IsInStep p
      → Alternates
          (is_talking p.last_state)
          (edges (run envs p).0)
          (is_talking (run envs p).1.last_state)
        × IsInStep (run envs p).1
  run-Alternates [] p h = stays p h
  run-Alternates (env ∷ envs) p h =
      let first = process_frame r an env p in
      let goes = process-Goes env p h in
      Goes-then p first (run envs first.1) goes (run-Alternates envs first.1 goes.1)
